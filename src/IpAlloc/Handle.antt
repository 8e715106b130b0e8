-- ===== src/IpAlloc/Handle.antt =====
-- What a message does to the allocator, and what is sent back.
use interlook.Prelude.{
  ℕ, String, ◌==◌, ◌≡◌, refl, sym, ap, ◌∙◌, inl, inr, Bool, true, false, none, some, List, [], ◌∷◌,
  ◌++◌, arith, eq_refl, Bool-cases, Option-cases,
}
use mathlib.Core.Option.{some-injective}
use interlook.Strconv.{contains}
use interlook.IpAlloc.{
  Ip, IpNet, IpamRecord, IpAlloc, Search, unfinished, exhausted, free, find_free, net_contains,
  skips, is_ip_free, ip_string, service_exist, get_service_by_name, delete_record, add_service,
  allocate, save, Answer, failed, answered, parse_cidr, mask_ip, add_in,
}
use interlook.IpAlloc.Records.{find_free_sound}
use interlook.IpAlloc.Full.{IsRefusal, HasRecord, find_free-IsSpent}

-- What a successful allocation did: the address is a free one of the network, and the record of the
-- service was added.
pub record Allocated (name : String) (i i' : IpAlloc) (address : String) : Type 0 where
  pub start : Ip
  pub net : IpNet
  pub ip : Ip
  pub parsed : parse_cidr i.network_cidr ≡ some (start, net)
  pub text : address ≡ ip_string ip
  pub inside : net_contains net ip ≡ true
  pub not_skipped : skips net ip ≡ false
  pub was_free : is_ip_free i.records ip ≡ true
  pub recorded : i'.records ≡ i.records ++ record { ip = address; host = name } ∷ []
  pub same_network : i'.network_cidr ≡ i.network_cidr

pub records-save :
    (writes : Bool) (i : IpAlloc)
    → ((save writes i).records ≡ i.records) × ((save writes i).network_cidr ≡ i.network_cidr)
unfolding save
records-save writes i = ground arith

allocate-Allocated :
    (writes : Bool) (name : String) (i i' : IpAlloc) (start : Ip) (net : IpNet) (s : Search) (f : ℕ)
    (address : String)
    → parse_cidr i.network_cidr ≡ some (start, net)
    → find_free f net i.records (mask_ip net.ones start) ≡ s
    → allocate writes name i s ≡ some (i', answered address)
    → Allocated name i i' address
allocate-Allocated writes name i i' start net unfinished f address p e h = absurd (cc)
allocate-Allocated writes name i i' start net exhausted f address p e h = absurd (cc)
allocate-Allocated writes name i i' start net (free ip) f address p e h =
    let (inside, skip, is_free) = find_free_sound f net i.records (mask_ip net.ones start) ip e in
    let after = record i {
      records = i.records ++ record { ip = ip_string ip; host = name } ∷ [];
    } in
    let (kept, cidr) = records-save writes after in
    let is_after : save writes after ≡ i' = ground arith in
    let is_text : ip_string ip ≡ address = ground arith in
    record {
      start = start;
      net = net;
      ip = ip;
      parsed = p;
      text = sym is_text;
      inside = inside;
      not_skipped = skip;
      was_free = is_free;
      recorded =
          sym (ap (λ x. x.records) is_after)
          ∙ kept
          ∙ ap (λ t. i.records ++ record { ip = t; host = name } ∷ []) is_text;
      same_network = sym (ap (λ x. x.network_cidr) is_after) ∙ cidr;
    }

-- An answer is that of a network whose text has no colon.
pub add_service-add_in :
    (f : ℕ) (writes : Bool) (name : String) (i i' : IpAlloc) (a : Answer)
    → add_service f writes name i ≡ some (i', a)
    → add_in f writes name i (parse_cidr i.network_cidr) ≡ some (i', a)
unfolding add_service
add_service-add_in f writes name i i' a h = elim (Bool-cases (contains i.network_cidr ":")) [
  | inl colon ↦ let bad = rw colon at h in absurd (cc)
  | inr plain ↦ rw plain at h
]

pub add_service-Allocated :
    (f : ℕ) (writes : Bool) (name : String) (i i' : IpAlloc) (address : String)
    → add_service f writes name i ≡ some (i', answered address)
    → Allocated name i i' address
add_service-Allocated f writes name i i' address h =
    let added = add_service-add_in f writes name i i' (answered address) h in
    elim (Option-cases (parse_cidr i.network_cidr)) [
      | inl none_parsed ↦ let bad = rw none_parsed at added in absurd (cc)
      | inr ((start, net), parsed) ↦
          allocate-Allocated writes name i i' start net
            (find_free f net i.records (mask_ip net.ones start)) f address parsed refl
            (rw parsed at added)
    ]

pub service_exist-own :
    (rs : List IpamRecord) (r : IpamRecord) → service_exist (rs ++ r ∷ []) r.host ≡ true
unfolding service_exist
service_exist-own [] r = rw (eq_refl r.host) refl
service_exist-own (s ∷ rs) r = ground (arith, service_exist-own rs r)

pub get_service_by_name-own :
    (rs : List IpamRecord) (r : IpamRecord)
    → service_exist rs r.host ≡ false
    → get_service_by_name (rs ++ r ∷ []) r.host ≡ r
unfolding service_exist get_service_by_name
get_service_by_name-own [] r h = rw (eq_refl r.host) refl
get_service_by_name-own (s ∷ rs) r h = ground (arith, get_service_by_name-own rs r)

pub delete_record-own :
    (rs : List IpamRecord) (r : IpamRecord)
    → service_exist rs r.host ≡ false
    → delete_record (rs ++ r ∷ []) r.host ≡ some rs
unfolding service_exist delete_record
delete_record-own [] r h = rw (eq_refl r.host) refl
delete_record-own (s ∷ rs) r h = elim (Bool-cases (s.host == r.host)) [
  | inl here ↦ absurd (ground arith)
  | inr other ↦ rw (other, delete_record-own rs r (ground arith)) refl
]

pub delete_record-unknown :
    (rs : List IpamRecord) (name : String)
    → service_exist rs name ≡ false
    → delete_record rs name ≡ none
unfolding service_exist delete_record
delete_record-unknown [] name h = refl
delete_record-unknown (s ∷ rs) name h = elim (Bool-cases (s.host == name)) [
  | inl here ↦ absurd (ground arith)
  | inr other ↦ rw (other, delete_record-unknown rs name (ground arith)) refl
]

abbrev error_of : Answer → String
error_of (failed e) = e
error_of (answered _) = ""

allocate-failed :
    (writes : Bool) (name : String) (i i' : IpAlloc) (s : Search) (e : String)
    → allocate writes name i s ≡ some (i', failed e)
    → (i' ≡ i) × (e ≡ "no available IPAM") × (s ≡ exhausted)
allocate-failed writes name i i' unfinished e h = absurd (cc)
allocate-failed writes name i i' exhausted e h =
    let is = sym (some-injective _ _ h) in (ap (λ x. x.0) is, ap (λ x. error_of x.1) is, refl)
allocate-failed writes name i i' (free ip) e h = absurd (cc)

-- An allocation that fails changes nothing, and says why.
pub add_service-failed :
    (f : ℕ) (writes : Bool) (name : String) (i i' : IpAlloc) (e : String)
    → add_service f writes name i ≡ some (i', failed e)
    → (i' ≡ i) × IsRefusal i.network_cidr (HasRecord i.records) e
add_service-failed f writes name i i' e h =
    let added = add_service-add_in f writes name i i' (failed e) h in
    elim (Option-cases (parse_cidr i.network_cidr)) [
      | inl none_parsed ↦
          let is = sym (some-injective _ _ (rw none_parsed at added)) in
          (ap (λ x. x.0) is, inr (ap (λ x. error_of x.1) is, none_parsed))
      | inr ((start, net), parsed) ↦
          let search = find_free f net i.records (mask_ip net.ones start) in
          let (same, says, spent) =
            allocate-failed writes name i i' search e (rw parsed at added) in
          (
            same,
            inl (
              says,
              (
                start,
                net,
                parsed,
                find_free-IsSpent f net i.records (mask_ip net.ones start) spent,
              ),
            ),
          )
    ]
