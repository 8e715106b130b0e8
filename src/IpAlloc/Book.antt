-- ===== src/IpAlloc/Book.antt =====
-- The records of the allocator as a book that gives each service at most one address.
use mathlib.Core.Option
use interlook.Prelude.{
  String, ◌==◌, ◌≡◌, refl, sym, ap, ◌≢◌, inl, inr, true, false, Option, none, some, List, [], ◌∷◌,
  ◌++◌, All, arith, eq_iff, eq_refl, ==_ne, Bool-cases, subst, if◌then◌else◌,
}
use mathlib.Core.Option.{some-injective}
use interlook.IpAlloc.{
  Ip, ip_string, is_ip_free, IpamRecord, service_exist, get_service_by_name, delete_record,
}
use interlook.IpAlloc.Records.{AreApart}
use interlook.IpAlloc.Full.{HasRecord}

abbrev pub Book : Type 0
Book = String → Option String

unfoldable pub book_of : List IpamRecord → Book
book_of [] name = none
book_of (r ∷ rs) name = if r.host == name then some r.ip else book_of rs name

-- `b'` has `o` for `name`, and is `b` elsewhere.
abbrev pub Differs : String → Option String → Book → Book → Type 0
Differs name o b b' = (b' name ≡ o) × ((n : String) → n ≢ name → b' n ≡ b n)

-- A service has the address.
abbrev pub HasOwner : Book → Ip → Type 0
HasOwner b ip = (name : String) × (b name ≡ some (ip_string ip))

pub book_of-none :
    (rs : List IpamRecord) (name : String) → service_exist rs name ≡ false → book_of rs name ≡ none
unfolding book_of service_exist
book_of-none [] name h = refl
book_of-none (r ∷ rs) name h = ground (arith, book_of-none rs name)

pub book_of-known :
    (rs : List IpamRecord) (name : String)
    → service_exist rs name ≡ true
    → let r = get_service_by_name rs name in (book_of rs name ≡ some r.ip) × (r.host ≡ name)
unfolding book_of service_exist get_service_by_name
book_of-known [] name h = absurd (cc)
book_of-known (r ∷ rs) name h = elim (Bool-cases (r.host == name)) [
  | inl here ↦ rw here (refl, (eq_iff r.host name).0 here)
  | inr other ↦ rw other (book_of-known rs name (rw other at h))
]

pub book_of-append :
    (rs : List IpamRecord) (r : IpamRecord)
    → service_exist rs r.host ≡ false
    → Differs r.host (some r.ip) (book_of rs) (book_of (rs ++ r ∷ []))
unfolding book_of service_exist
book_of-append [] r h =
    (rw (eq_refl r.host) refl, λ n apart. rw (==_ne r.host n (λ e. apart (sym e))) refl)
book_of-append (s ∷ rs) r h = elim (Bool-cases (s.host == r.host)) [
  | inl here ↦ absurd (ground arith)
  | inr other ↦
      let (own, rest) = book_of-append rs r (rw other at h) in
      (
        rw other own,
        λ n apart. elim (Bool-cases (s.host == n)) [
          | inl here ↦ rw here refl
          | inr there ↦ rw there (rest n apart)
        ],
      )
]

pub book_of-fresh :
    (rs : List IpamRecord) (address n : String)
    → All (λ r. r.ip ≢ address) rs
    → book_of rs n ≢ some address
unfolding book_of
book_of-fresh [] address n h e = absurd (cc)
book_of-fresh (r ∷ rs) address n (p, h) e = elim (Bool-cases (r.host == n)) [
  | inl here ↦ p (some-injective _ _ (rw here at e))
  | inr other ↦ book_of-fresh rs address n h (rw other at e)
]

pub book_of-absent :
    (rs : List IpamRecord) (name address : String)
    → All (λ s. (s.host ≢ name) × (s.ip ≢ address)) rs
    → book_of rs name ≡ none
unfolding book_of
book_of-absent [] name address h = refl
book_of-absent (r ∷ rs) name address ((p, q), h) =
    rw (==_ne r.host name p) (book_of-absent rs name address h)

-- The address of a record has the record's service as its owner.
pub book_of-owner :
    (rs : List IpamRecord) (ip : Ip) → AreApart rs → HasRecord rs ip → HasOwner (book_of rs) ip
unfolding book_of is_ip_free
book_of-owner [] ip apart h = absurd (cc)
book_of-owner (r ∷ rs) ip (far, apart) h = elim (Bool-cases (ip_string ip == r.ip)) [
  | inl here ↦ (r.host, rw (eq_refl r.host) (ap some (sym ((eq_iff (ip_string ip) r.ip).0 here))))
  | inr other ↦
      let (name, owns) = book_of-owner rs ip apart (rw other at h) in
      elim (Bool-cases (r.host == name)) [
        | inl same ↦
            let host : r.host ≡ name = (eq_iff r.host name).0 same in
            let absent =
              book_of-absent rs name r.ip
                (subst (λ n. All (λ s. (s.host ≢ n) × (s.ip ≢ r.ip)) rs) host far) in
            absurd (cc (absent, owns))
        | inr past ↦ (name, rw past owns)
      ]
]

pub delete_record-others :
    (rs rest : List IpamRecord) (name n : String)
    → delete_record rs name ≡ some rest
    → n ≢ name
    → book_of rest n ≡ book_of rs n
unfolding book_of delete_record
delete_record-others [] rest name n h apart = absurd (cc)
delete_record-others (r ∷ rs) rest name n h apart = elim (Bool-cases (r.host == name)) [
  | inl here ↦
      let kept : rs ≡ rest = some-injective _ _ (rw here at h) in
      let same : r.host ≡ name = (eq_iff r.host name).0 here in
      rw (same, ==_ne name n (λ e. apart (sym e))) (ap (λ l. book_of l n) (sym kept))
  | inr other ↦
      let (rest', found, is) = (Option.map-eq-some_iff _ _).0 (rw other at h) in
      rw⁻¹ is (elim (Bool-cases (r.host == n)) [
        | inl at ↦ rw at refl
        | inr past ↦ rw past (delete_record-others rs rest' name n found apart)
      ])
]

pub delete_record-known :
    (rs : List IpamRecord) (name : String)
    → service_exist rs name ≡ true
    → (rest : List IpamRecord) × (delete_record rs name ≡ some rest)
unfolding service_exist delete_record
delete_record-known [] name h = absurd (cc)
delete_record-known (r ∷ rs) name h = elim (Bool-cases (r.host == name)) [
  | inl here ↦ (rs, rw here refl)
  | inr other ↦
      let (rest, found) = delete_record-known rs name (rw other at h) in
      (r ∷ rest, rw (other, found) refl)
]
