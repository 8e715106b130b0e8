-- ===== src/IpAlloc/Records.antt =====
-- The records of the allocator: one for each service, with different addresses.
use mathlib.Core.Option
use interlook.Prelude.{
  ℕ, zero, suc, String, ◌==◌, ◌≡◌, refl, sym, ◌∙◌, ◌≢◌, inl, inr, true, false, some, List, [], ◌∷◌,
  ◌++◌, All, arith, eq_iff, ==_ne, subst, Bool-cases,
}
use interlook.IpAlloc.{
  Ip, IpNet, IpamRecord, free, find_free, net_contains, skips, is_ip_free, ip_string, increment_ip,
  service_exist, delete_record,
}

-- No two records have the same service, or the same address.
abbrev pub AreApart : List IpamRecord → Type 0
AreApart [] = Unit
AreApart (r ∷ rs) = All (λ s. (s.host ≢ r.host) × (s.ip ≢ r.ip)) rs × AreApart rs

-- An address that the search finds is free, in the network, and not one that is skipped.
pub find_free_sound :
    (f : ℕ) (net : IpNet) (records : List IpamRecord) (start ip : Ip)
    → find_free f net records start ≡ free ip
    → (net_contains net ip ≡ true) × (skips net ip ≡ false) × (is_ip_free records ip ≡ true)
unfolding find_free
find_free_sound zero net records start ip h = cc
find_free_sound (suc f) net records start ip h =
    ground (arith, find_free_sound f net records (increment_ip start) ip)

pub is_ip_free-All :
    (records : List IpamRecord) (ip : Ip)
    → is_ip_free records ip ≡ true
    → All (λ r. r.ip ≢ ip_string ip) records
unfolding is_ip_free
is_ip_free-All [] ip h = tt
is_ip_free-All (r ∷ records) ip h =
    ((λ e. ground (arith, eq_iff (ip_string ip) r.ip)), is_ip_free-All records ip (ground arith))

pub service_exist-All :
    (records : List IpamRecord) (name : String)
    → service_exist records name ≡ false
    → All (λ r. r.host ≢ name) records
unfolding service_exist
service_exist-All [] name h = tt
service_exist-All (r ∷ records) name h =
    ((λ e. ground (arith, eq_iff r.host name)), service_exist-All records name (ground arith))

pub AreApart-snoc :
    (rs : List IpamRecord) (r : IpamRecord)
    → AreApart rs
    → All (λ s. s.host ≢ r.host) rs
    → All (λ s. s.ip ≢ r.ip) rs
    → AreApart (rs ++ r ∷ [])
AreApart-snoc [] r a h i = (tt, tt)
AreApart-snoc (s ∷ rs) r (p, a) (h, hs) (i, is) = ((All-snoc rs p), AreApart-snoc rs r a hs is)
  where
    All-snoc :
        (ts : List IpamRecord)
        → All (λ t. (t.host ≢ s.host) × (t.ip ≢ s.ip)) ts
        → All (λ t. (t.host ≢ s.host) × (t.ip ≢ s.ip)) (ts ++ r ∷ [])
    All-snoc [] q = (((λ e. h (sym e)), (λ e. i (sym e))), tt)
    All-snoc (t ∷ ts) (q, qs) = (q, All-snoc ts qs)

delete_record-All {κ} :
    (P : IpamRecord → Type κ) (rs rest : List IpamRecord) (name : String)
    → delete_record rs name ≡ some rest
    → All P rs
    → All P rest
unfolding delete_record
delete_record-All P [] rest name h a = cc
delete_record-All P (r ∷ rs) rest name h (p, a) = elim (Bool-cases (r.host == name)) [
  | inl here ↦ subst (All P) (ground arith) a
  | inr other ↦
      let (rest', found, same) = (Option.map-eq-some_iff _ _).0 (rw other at h) in
      subst (All P) same (p, delete_record-All P rs rest' name found a)
]

pub delete_record-AreApart :
    (rs rest : List IpamRecord) (name : String)
    → delete_record rs name ≡ some rest
    → AreApart rs
    → AreApart rest
unfolding delete_record
delete_record-AreApart [] rest name h a = cc
delete_record-AreApart (r ∷ rs) rest name h (p, a) = elim (Bool-cases (r.host == name)) [
  | inl here ↦ subst AreApart (ground arith) a
  | inr other ↦
      let (rest', found, same) = (Option.map-eq-some_iff _ _).0 (rw other at h) in
      subst AreApart same (
        delete_record-All (λ s. (s.host ≢ r.host) × (s.ip ≢ r.ip)) rs rest' name found p,
        delete_record-AreApart rs rest' name found a,
      )
]

no_host :
    (name : String) (r : IpamRecord) (ts : List IpamRecord)
    → r.host ≡ name
    → All (λ s. (s.host ≢ r.host) × (s.ip ≢ r.ip)) ts
    → service_exist ts name ≡ false
unfolding service_exist
no_host name r [] e q = refl
no_host name r (t ∷ ts) e ((a, b), q) =
    rw (==_ne t.host name (λ x. a (x ∙ sym e))) (no_host name r ts e q)

-- Where the services are apart, a service that was deleted has no record left.
pub delete_record-service_exist :
    (rs rest : List IpamRecord) (name : String)
    → delete_record rs name ≡ some rest
    → AreApart rs
    → service_exist rest name ≡ false
unfolding delete_record service_exist
delete_record-service_exist [] rest name h a = cc
delete_record-service_exist (r ∷ rs) rest name h (p, a) = elim (Bool-cases (r.host == name)) [
  | inl here ↦
      subst (λ l. service_exist l name ≡ false) (ground arith)
        (no_host name r rs ((eq_iff r.host name).0 here) p)
  | inr other ↦
      let (rest', found, same) = (Option.map-eq-some_iff _ _).0 (rw other at h) in
      subst (λ l. service_exist l name ≡ false) same
        (rw other (delete_record-service_exist rs rest' name found a))
]
