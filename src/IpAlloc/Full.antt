-- ===== src/IpAlloc/Full.antt =====
-- provisioner/ipam/ipalloc/ipalloc.go: when the search for a free address finds none.
use Prim.Native.String
use interlook.Prelude.{
  String, none, some, ℕ, zero, suc, ◌<◌, ◌≡◌, ◌⊎◌, inl, inr, true, false, List, arith, Bool-cases,
}
use interlook.IpAlloc.{
  Ip, IpNet, IpamRecord, exhausted, find_free, net_contains, skips, is_ip_free, increment_ip,
  mask_ip, parse_cidr,
}

-- The address after `k` increments.
unfoldable pub walk : ℕ → Ip → Ip
walk zero ip = ip
walk (suc k) ip = walk k (increment_ip ip)

-- An address that a search may not take, where `Taken` says which addresses are in use.
abbrev pub IsBarred : IpNet → (Ip → Type 0) → Ip → Type 0
IsBarred net Taken ip = (skips net ip ≡ true) ⊎ Taken ip

-- From `ip` on, every address is barred up to the end of the network.
abbrev pub IsSpent : IpNet → (Ip → Type 0) → Ip → Type 0
IsSpent net Taken ip =
    (k : ℕ) × (net_contains net (walk k ip) ≡ false)
    × ((j : ℕ) → j < k → IsBarred net Taken (walk j ip))

abbrev pub HasRecord : List IpamRecord → Ip → Type 0
HasRecord records ip = is_ip_free records ip ≡ false

-- What an allocator of the network `cidr` may refuse an address with: the network has no address
-- left, or its text is not that of a network.
abbrev pub IsRefusal : String → (Ip → Type 0) → String → Type 0
IsRefusal cidr Taken err =
    ((err ≡ "no available IPAM")
      × ((start : Ip) × (net : IpNet) × (parse_cidr cidr ≡ some (start, net))
          × IsSpent net Taken (mask_ip net.ones start)))
    ⊎ ((err ≡ String.◌++◌ "invalid CIDR address: " cidr) × (parse_cidr cidr ≡ none))

IsBarred-map :
    (net : IpNet) (P Q : Ip → Type 0) (ip : Ip)
    → ((a : Ip) → P a → Q a)
    → IsBarred net P ip
    → IsBarred net Q ip
IsBarred-map net P Q ip g (inl skipped) = inl skipped
IsBarred-map net P Q ip g (inr taken) = inr (g ip taken)

pub IsRefusal-map :
    (cidr err : String) (P Q : Ip → Type 0)
    → ((a : Ip) → P a → Q a)
    → IsRefusal cidr P err
    → IsRefusal cidr Q err
IsRefusal-map cidr err P Q g (inl (says, (start, net, parsed, (k, past, before)))) = inl (
  says,
  (
    start,
    net,
    parsed,
    (k, past, λ j small. IsBarred-map net P Q (walk j (mask_ip net.ones start)) g (before j small)),
  ),
)
IsRefusal-map cidr err P Q g (inr h) = inr h

one_more :
    (net : IpNet) (records : List IpamRecord) (ip : Ip)
    → IsBarred net (HasRecord records) ip
    → IsSpent net (HasRecord records) (increment_ip ip)
    → IsSpent net (HasRecord records) ip
unfolding walk
one_more net records ip barred (k, past, before) = (suc k, past, from)
  where
    from : (j : ℕ) → j < suc k → IsBarred net (HasRecord records) (walk j ip)
    from zero small = barred
    from (suc j) small = before j (omega (arith, small))

pub find_free-IsSpent :
    (f : ℕ) (net : IpNet) (records : List IpamRecord) (ip : Ip)
    → find_free f net records ip ≡ exhausted
    → IsSpent net (HasRecord records) ip
unfolding find_free walk
find_free-IsSpent zero net records ip h = absurd (cc)
find_free-IsSpent (suc f) net records ip h = elim (Bool-cases (net_contains net ip)) [
  | inr outside ↦ (zero, outside, λ j small. absurd (omega (arith, small)))
  | inl inside ↦ elim (Bool-cases (skips net ip)) [
    | inl skipped ↦
        one_more net records ip (inl skipped)
          (find_free-IsSpent f net records (increment_ip ip) (rw (inside, skipped) at h))
    | inr kept ↦ elim (Bool-cases (is_ip_free records ip)) [
      | inl is_free ↦ let bad = rw (inside, kept, is_free) at h in absurd (cc)
      | inr taken ↦
          one_more net records ip (inr taken)
            (find_free-IsSpent f net records (increment_ip ip) (rw (inside, kept, taken) at h))
    ]
  ]
]
