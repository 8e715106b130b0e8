-- ===== src/IpAlloc/Returns.antt =====
-- provisioner/ipam/ipalloc/ipalloc.go: every message is answered.
use native.Mathlib.Nat.{div-mul-le_self}
use mathlib.Core.Option.{some-injective}
use interlook.Strconv.{all_digits, contains}
use interlook.Comm.{Message, update_action, delete_action}
use interlook.Prelude.{
  ℕ, ◌-◌, ◌^◌, ◌<◌, min, ◌≡◌, refl, sym, ap, ◌∙◌, ◌≢◌, inl, inr, Bool, false, Option, none, some,
  String, split, subst, ◌==◌, eq_iff, Option-cases, Bool-cases, List, [], ◌∷◌, arith,
}
use interlook.IpAlloc.{
  Ip, IpNet, IpamRecord, IpAlloc, Search, unfinished, exhausted, free, find_free, mask_ip,
  mask_byte, octet, quad, four_octets, net_of, cidr_of, prefix_length, parse_cidr, handle,
  add_service, allocate, service_exist, Answer, failed, answered, reply_added,
}
use interlook.IpAlloc.Termination.{IsByte, v4, find_free-ends}
use interlook.IpAlloc.Answers.{handle-delete, handle-known, handle-new}

record IsV4 (ip : Ip) : Type 0 where
  a : ℕ
  b : ℕ
  c : ℕ
  d : ℕ
  is : ip ≡ v4 a b c d
  byte_a : IsByte a
  byte_b : IsByte b
  byte_c : IsByte c
  byte_d : IsByte d

octet-IsByte : (o : Option ℕ) (n : ℕ) → octet o ≡ some n → IsByte n
octet-IsByte none n h = absurd (cc)
octet-IsByte (some m) n h = ground arith

quad-IsV4 :
    (o p q r : Option ℕ) (ip : Ip)
    → quad (octet o) (octet p) (octet q) (octet r) ≡ some ip
    → IsV4 ip
quad-IsV4 o p q r ip h =
    from (octet o) (octet p) (octet q) (octet r) (octet-IsByte o) (octet-IsByte p) (octet-IsByte q)
      (octet-IsByte r) h
  where
    from :
        (x y z w : Option ℕ)
        → ((n : ℕ) → x ≡ some n → IsByte n)
        → ((n : ℕ) → y ≡ some n → IsByte n)
        → ((n : ℕ) → z ≡ some n → IsByte n)
        → ((n : ℕ) → w ≡ some n → IsByte n)
        → quad x y z w ≡ some ip
        → IsV4 ip
    from (some a) (some b) (some c) (some d) ha hb hc hd e = record {
      a = a;
      b = b;
      c = c;
      d = d;
      is = sym (some-injective _ _ e);
      byte_a = ha a refl;
      byte_b = hb b refl;
      byte_c = hc c refl;
      byte_d = hd d refl;
    }
    from none y z w ha hb hc hd e = absurd (cc)
    from (some a) none z w ha hb hc hd e = absurd (cc)
    from (some a) (some b) none w ha hb hc hd e = absurd (cc)
    from (some a) (some b) (some c) none ha hb hc hd e = absurd (cc)

four_octets-IsV4 : (parts : List String) (ip : Ip) → four_octets parts ≡ some ip → IsV4 ip
unfolding four_octets
four_octets-IsV4 [] ip h = absurd (cc)
four_octets-IsV4 (a ∷ []) ip h = absurd (cc)
four_octets-IsV4 (a ∷ b ∷ []) ip h = absurd (cc)
four_octets-IsV4 (a ∷ b ∷ c ∷ []) ip h = absurd (cc)
four_octets-IsV4 (a ∷ b ∷ c ∷ d ∷ []) ip h =
    quad-IsV4 (all_digits a) (all_digits b) (all_digits c) (all_digits d) ip h
four_octets-IsV4 (a ∷ b ∷ c ∷ d ∷ e ∷ parts) ip h = absurd (cc)

net_of-IsV4 :
    (o : Option Ip) (p : Option ℕ) (start : Ip) (net : IpNet)
    → ((ip : Ip) → o ≡ some ip → IsV4 ip)
    → net_of o p ≡ some (start, net)
    → IsV4 start
net_of-IsV4 none p start net v h = absurd (cc)
net_of-IsV4 (some ip) none start net v h = absurd (cc)
net_of-IsV4 (some ip) (some ones) start net v h =
    subst IsV4 (ap (λ x. x.0) (some-injective _ _ h)) (v ip refl)

cidr_of-IsV4 :
    (parts : List String) (start : Ip) (net : IpNet)
    → cidr_of parts ≡ some (start, net)
    → IsV4 start
cidr_of-IsV4 [] start net h = absurd (cc)
cidr_of-IsV4 (a ∷ []) start net h = absurd (cc)
cidr_of-IsV4 (a ∷ m ∷ []) start net h =
    net_of-IsV4 (four_octets (split b'.' a)) (prefix_length (all_digits m)) start net
      (four_octets-IsV4 (split b'.' a)) h
cidr_of-IsV4 (a ∷ m ∷ n ∷ parts) start net h = absurd (cc)

mask_byte-IsByte : (k b : ℕ) → IsByte b → IsByte (mask_byte k b)
mask_byte-IsByte k b h = omega (arith, div-mul-le_self b (2 ^ (8 - min k 8)))

mask_ip-IsV4 : (ones : ℕ) (ip : Ip) → IsV4 ip → IsV4 (mask_ip ones ip)
unfolding mask_ip
mask_ip-IsV4 ones ip v = record {
  a = mask_byte ones v.a;
  b = mask_byte (ones - 8) v.b;
  c = mask_byte (ones - 8 - 8) v.c;
  d = mask_byte (ones - 8 - 8 - 8) v.d;
  is = ap (mask_ip ones) v.is;
  byte_a = mask_byte-IsByte ones v.a v.byte_a;
  byte_b = mask_byte-IsByte (ones - 8) v.b v.byte_b;
  byte_c = mask_byte-IsByte (ones - 8 - 8) v.c v.byte_c;
  byte_d = mask_byte-IsByte (ones - 8 - 8 - 8) v.d v.byte_d;
}

allocate-none :
    (writes : Bool) (name : String) (i : IpAlloc) (s : Search)
    → allocate writes name i s ≡ none
    → s ≡ unfinished
allocate-none writes name i unfinished h = refl
allocate-none writes name i exhausted h = absurd (cc)
allocate-none writes name i (free ip) h = absurd (cc)

search_ends :
    (f : ℕ) (net : IpNet) (records : List IpamRecord) (ip : Ip)
    → IsV4 ip
    → 0 < net.ones
    → 4294967296 < f
    → find_free f net records ip ≢ unfinished
search_ends f net records ip v ones enough e =
    find_free-ends f net records v.a v.b v.c v.d ones v.byte_a v.byte_b v.byte_c v.byte_d
      (omega arith) (rw v.is at e)

-- The text of the configured network has no colon, and if it is one, it has at least one bit.
abbrev pub IsProperText : String → Type 0
IsProperText cidr =
    (contains cidr ":" ≡ false)
    × ((start : Ip) (net : IpNet) → parse_cidr cidr ≡ some (start, net) → 0 < net.ones)

abbrev pub IsProper : IpAlloc → Type 0
IsProper i = IsProperText i.network_cidr

add_service-returns :
    (f : ℕ) (writes : Bool) (name : String) (i : IpAlloc)
    → IsProper i
    → 4294967296 < f
    → add_service f writes name i ≢ none
unfolding add_service parse_cidr
add_service-returns f writes name i (plain, proper) enough h =
    let added = rw plain at h in
    elim (Option-cases (parse_cidr i.network_cidr)) [
      | inl none_parsed ↦ let bad = rw none_parsed at added in absurd (cc)
      | inr ((start, net), parsed) ↦
          search_ends f net i.records (mask_ip net.ones start)
            (mask_ip-IsV4 net.ones start
              (cidr_of-IsV4 (split b'/' i.network_cidr) start net parsed))
            (proper start net parsed) enough
            (allocate-none writes name i (find_free f net i.records (mask_ip net.ones start))
              (rw parsed at added))
    ]

reply_added-none :
    (msg : Message) (r : Option (IpAlloc × Answer)) → reply_added msg r ≡ none → r ≡ none
reply_added-none msg none h = refl
reply_added-none msg (some (i, failed e)) h = absurd (cc)
reply_added-none msg (some (i, answered a)) h = absurd (cc)

-- Every message to the allocator is answered: if the text of the configured network has no
-- colon and, where it is that of a network, its prefix has of at least one bit, the search for a free address ends within 2^32 + 1 looks,
-- whatever the records are.
pub handle-returns :
    (f : ℕ) (writes : Bool) (msg : Message) (i : IpAlloc)
    → IsProper i
    → 4294967296 < f
    → handle f writes msg i ≢ none
handle-returns f writes msg i proper enough h = elim (Bool-cases (msg.action == delete_action)) [
  | inl is_delete ↦
      let answer = handle-delete f writes msg i ((eq_iff msg.action delete_action).0 is_delete) in
      absurd (cc)
  | inr other ↦ elim (Bool-cases (service_exist i.records msg.service.name)) [
    | inl known ↦ let answer = handle-known f writes msg i other known in absurd (cc)
    | inr new ↦ add_service-returns f writes msg.service.name i proper enough (
        reply_added-none (record msg { action = update_action })
          (add_service f writes msg.service.name i) (sym (handle-new f writes msg i other new) ∙ h))
  ]
]
