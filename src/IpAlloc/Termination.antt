-- ===== src/IpAlloc/Termination.antt =====
-- provisioner/ipam/ipalloc/ipalloc.go: the loop of `addService` ends.
use interlook.Prelude.{
  ℕ, zero, suc, ◌+◌, ◌-◌, ◌*◌, ◌/◌, ◌%◌, ◌^◌, ◌<◌, min, ◌≡◌, refl, ◌≢◌, ◌⊎◌, inl, inr, true, false,
  List, [], ◌∷◌, eqb, arith, Bool-cases,
}
use interlook.IpAlloc.{
  Ip, IpNet, IpamRecord, unfinished, exhausted, find_free, net_contains, increment_ip, mask_ip,
  eq_ip,
}

abbrev pub IsByte : ℕ → Type 0
IsByte b = b < 256

-- An address of four bytes.
abbrev pub v4 : ℕ → ℕ → ℕ → ℕ → Ip
v4 a b c d = a ∷ b ∷ c ∷ d ∷ []

abbrev pub number : ℕ → ℕ → ℕ → ℕ → ℕ
number a b c d = a * 16777216 + b * 65536 + c * 256 + d

-- The next address of four bytes, or the wrap at the last one.
data Next (a b c d : ℕ) : Type 0 where
  wraps :
      a ≡ 255 → number a b c d ≡ 4294967295 → increment_ip (v4 a b c d) ≡ v4 0 0 0 0 → Next a b c d
  goes :
      (a' b' c' d' : ℕ)
      → increment_ip (v4 a b c d) ≡ v4 a' b' c' d'
      → IsByte a'
      → IsByte b'
      → IsByte c'
      → IsByte d'
      → number a' b' c' d' ≡ suc (number a b c d)
      → Next a b c d

byte_cases :
    (b : ℕ)
    → IsByte b
    → ((b ≡ 255) × ((b + 1) % 256 ≡ 0)) ⊎ ((suc b < 256) × ((b + 1) % 256 ≡ suc b))
byte_cases b h = grind arith

stays : (b : ℕ) → eqb (suc b) 0 ≡ false
stays b = ground arith

increment_ip-Next : (a b c d : ℕ) → IsByte a → IsByte b → IsByte c → IsByte d → Next a b c d
unfolding increment_ip
increment_ip-Next a b c d ha hb hc hd = elim (byte_cases d hd) [
  | inr (ld, ed) ↦
      goes a b c (suc d) (rw (increment_ip, ed, stays d) refl) ha hb hc (omega arith) (omega arith)
  | inl (qd, ed) ↦ elim (byte_cases c hc) [
    | inr (lc, ec) ↦
        goes a b (suc c) 0 (rw (increment_ip, ed, ec, stays c) refl) ha hb (omega arith)
          (omega arith) (omega arith)
    | inl (qc, ec) ↦ elim (byte_cases b hb) [
      | inr (lb, eb) ↦
          goes a (suc b) 0 0 (rw (increment_ip, ed, ec, eb, stays b) refl) ha (omega arith)
            (omega arith) (omega arith) (omega arith)
      | inl (qb, eb) ↦ elim (byte_cases a ha) [
        | inr (la, ea) ↦
            goes (suc a) 0 0 0 (rw (increment_ip, ed, ec, eb, ea) refl) (omega arith) (omega arith)
              (omega arith) (omega arith) (omega arith)
        | inl (qa, ea) ↦ wraps qa (omega arith) (rw (increment_ip, ed, ec, eb, ea) refl)
      ]
    ]
  ]
]

high_bit : (k : ℕ) → k < 8 → 255 / 2 ^ k * 2 ^ k ≢ 0
high_bit zero h = omega arith
high_bit (suc zero) h = omega arith
high_bit (suc (suc zero)) h = omega arith
high_bit (suc (suc (suc zero))) h = omega arith
high_bit (suc (suc (suc (suc zero)))) h = omega arith
high_bit (suc (suc (suc (suc (suc zero))))) h = omega arith
high_bit (suc (suc (suc (suc (suc (suc zero)))))) h = omega arith
high_bit (suc (suc (suc (suc (suc (suc (suc zero))))))) h = omega arith
high_bit (suc (suc (suc (suc (suc (suc (suc (suc k)))))))) h = absurd (omega arith)

no_bit : (n : ℕ) → 0 / n * n ≡ 0
no_bit n = ground arith

eq_ip-first :
    (ms : Ip) (k : ℕ) (rest rest' : Ip)
    → k < 8
    → eq_ip ms ((255 / 2 ^ k * 2 ^ k) ∷ rest) ≡ true
    → eq_ip ms ((0 / 2 ^ k * 2 ^ k) ∷ rest') ≡ false
unfolding eq_ip
eq_ip-first [] k rest rest' h e = refl
eq_ip-first (m ∷ ms) k rest rest' h e = ground (arith, high_bit k h, no_bit (2 ^ k))

-- A network of at least one bit does not have both an address from 255.0.0.0 on and 0.0.0.0.
net_contains-wrap :
    (net : IpNet) (b c d : ℕ)
    → 0 < net.ones
    → net_contains net (v4 255 b c d) ≡ true
    → net_contains net (v4 0 0 0 0) ≡ false
unfolding net_contains
net_contains-wrap net b c d h e =
    eq_ip-first (mask_ip net.ones net.address) (8 - min net.ones 8) _ _ (omega arith) e

find_free-outside :
    (f : ℕ) (net : IpNet) (records : List IpamRecord) (ip : Ip)
    → net_contains net ip ≡ false
    → find_free (suc f) net records ip ≡ exhausted
unfolding find_free
find_free-outside f net records ip h = rw h refl

find_free-next :
    (f : ℕ) (net : IpNet) (records : List IpamRecord) (ip : Ip)
    → net_contains net ip ≡ true
    → find_free (suc f) net records ip ≡ unfinished
    → find_free f net records (increment_ip ip) ≡ unfinished
unfolding find_free
find_free-next f net records ip h e = ground arith

find_free-wrap :
    (f : ℕ) (net : IpNet) (records : List IpamRecord) (b c d : ℕ)
    → 0 < net.ones
    → 0 < f
    → net_contains net (v4 255 b c d) ≡ true
    → find_free f net records (v4 0 0 0 0) ≢ unfinished
find_free-wrap zero net records b c d ones h i e = absurd (omega arith)
find_free-wrap (suc f) net records b c d ones h i e =
    let out = find_free-outside f net records (v4 0 0 0 0) (net_contains-wrap net b c d ones i) in
    absurd (cc)

-- In a network of at least one bit, the search for a free address from any address on ends with an
-- address or with none, within as many looks as addresses are left, and one more.
pub find_free-ends :
    (f : ℕ) (net : IpNet) (records : List IpamRecord) (a b c d : ℕ)
    → 0 < net.ones
    → IsByte a
    → IsByte b
    → IsByte c
    → IsByte d
    → 4294967296 < number a b c d + f
    → find_free f net records (v4 a b c d) ≢ unfinished
unfolding find_free
find_free-ends zero net records a b c d ones ha hb hc hd h e = absurd (omega arith)
find_free-ends (suc f) net records a b c d ones ha hb hc hd h e =
    elim (Bool-cases (net_contains net (v4 a b c d))) [
      | inr out ↦ let ended = find_free-outside f net records (v4 a b c d) out in absurd (cc)
      | inl inside ↦
          let rest = find_free-next f net records (v4 a b c d) inside e in
          elim (increment_ip-Next a b c d ha hb hc hd) [
            | wraps top _ w ↦
                find_free-wrap f net records b c d ones (omega arith) (rw top at inside)
                  (rw w at rest)
            | goes a' b' c' d' w ha' hb' hc' hd' up ↦
                find_free-ends f net records a' b' c' d' ones ha' hb' hc' hd' (omega arith)
                  (rw w at rest)
          ]
    ]

-- The increment of an address of four bytes is an address of four bytes, and the number that it
-- stands for is one more modulo 2^32.
pub increment_ip-number :
    (a b c d : ℕ)
    → IsByte a
    → IsByte b
    → IsByte c
    → IsByte d
    → (a' b' c' d' : ℕ) × (increment_ip (v4 a b c d) ≡ v4 a' b' c' d')
      × (IsByte a' × IsByte b' × IsByte c' × IsByte d')
      × (number a' b' c' d' ≡ (number a b c d + 1) % 4294967296)
increment_ip-number a b c d ha hb hc hd = elim (increment_ip-Next a b c d ha hb hc hd) [
  | wraps top last w ↦
      (0, 0, 0, 0, w, (omega arith, omega arith, omega arith, omega arith), omega (arith, last))
  | goes a' b' c' d' w ha' hb' hc' hd' up ↦
      (a', b', c', d', w, (ha', hb', hc', hd'), omega (arith, up, ha', hb', hc', hd'))
]
