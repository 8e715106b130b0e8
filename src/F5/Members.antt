-- ===== src/F5/Members.antt =====
-- provisioner/loadbalancer/f5ltm/helper.go: the members of a pool stand for the targets that they
-- were made from.
use Prim.Native.String
use package.text.Mathlib.TextLemmas.{append-nil, append_assoc, cons-append, nil-append}
use interlook.Prelude.{
  ℕ, ◌^◌, ◌%◌, ◌<◌, String, ◌≡◌, refl, ap, ◌∙◌, true, false, Option, none, some, List, [], ◌∷◌, All,
  arith, eqb_iff, eq_refl,
}
use interlook.Strconv.{itoa, text, pos, atoi, uint32_of, after_colon}
use interlook.Strconv.Digits.{atoi-itoa, after_colon-itoa}
use interlook.Calls.{Result, ok}
use interlook.Comm.{Target, Message, eq_target, eq_targets}
use interlook.F5.{Node, Pool, PoolMember, F5Cli, BigIp}
use interlook.F5.Helper.{member_of, read_target, targets_of_members, pool_members_needs_update}

-- The device lists a member under a path: the folder and the member's name.
abbrev pub mounted : String → PoolMember → PoolMember
mounted folder m = record m { full_path = String.◌++◌ folder m.name }

-- The nodes that are found have the addresses that were looked for.
abbrev pub IsFound : (Target → Option Node) → Type 0
IsFound found = (t : Target) (node : Node) → found t ≡ some node → node.address ≡ t.host

colon_first : (digits : String) → String.◌++◌ ":" digits ≡ String.◌∷◌ ":" digits
colon_first digits = cons-append ":" "" digits ∙ ap (String.◌∷◌ ":") (nil-append digits)

path_parts :
    (folder name digits : String)
    → String.◌++◌ folder (text (name ∷ ":" ∷ digits ∷ []))
      ≡ String.◌++◌ (String.◌++◌ folder name) (String.◌∷◌ ":" digits)
path_parts folder name digits =
    simp (append-nil, append_assoc)
      (ap (λ d. String.◌++◌ folder (String.◌++◌ name d)) (colon_first digits))

port_of_path :
    (folder name : String) (n : ℕ)
    → n < 2 ^ 32
    → atoi (after_colon (String.◌++◌ folder (text (name ∷ ":" ∷ itoa n ∷ [])))) ≡ some (pos n)
port_of_path folder name n small =
    ap (λ p. atoi (after_colon p)) (path_parts folder name (itoa n))
    ∙ ap atoi (after_colon-itoa (String.◌++◌ folder name) n)
    ∙ atoi-itoa n (omega arith)

read_named :
    (folder name : String) (m : PoolMember) (t : Target) (r : Result (List Target))
    (ts : List Target)
    → t.port < 2 ^ 32
    → m.full_path ≡ String.◌++◌ folder (text (name ∷ ":" ∷ itoa t.port ∷ []))
    → m.address ≡ t.host
    → m.ratio ≡ t.weight
    → r ≡ ok ts
    → read_target m (atoi (after_colon m.full_path)) r ≡ ok (t ∷ ts)
unfolding uint32_of
read_named folder name m t r ts small path address ratio rest =
    let number = ap (λ p. atoi (after_colon p)) path ∙ port_of_path folder name t.port small in
    let wraps : t.port % 2 ^ 32 ≡ t.port = omega arith in
    ap (λ o. read_target m o r) number ∙ rw (rest, address, ratio, wraps) refl

module _ (f5 : BigIp) (msg : Message) (folder : String) where
  read_member :
      (t : Target) (o : Option Node) (r : Result (List Target)) (ts : List Target)
      → t.port < 2 ^ 32
      → ((node : Node) → o ≡ some node → node.address ≡ t.host)
      → r ≡ ok ts
      → (let m = mounted folder (member_of f5 msg t o) in
          read_target m (atoi (after_colon m.full_path)) r)
        ≡ ok (t ∷ ts)
  unfolding member_of
  read_member t none r ts small at e =
      read_named folder t.host (mounted folder (member_of f5 msg t none)) t r ts small refl refl
        refl e
  read_member t (some node) r ts small at e =
      read_named folder node.name (mounted folder (member_of f5 msg t (some node))) t r ts small
        refl (at node refl) refl e

  -- The members of a pool as the device lists them, when they were made from these targets.
  unfoldable pub listed : (Target → Option Node) → List Target → List PoolMember
  listed found [] = []
  listed found (t ∷ ts) = mounted folder (member_of f5 msg t (found t)) ∷ listed found ts

  -- The members made from targets are read back as these targets.
  pub targets_of_members-listed :
      (found : Target → Option Node) (ts : List Target)
      → IsFound found
      → All (λ t. t.port < 2 ^ 32) ts
      → targets_of_members (listed found ts) ≡ ok ts
  unfolding targets_of_members listed
  targets_of_members-listed found [] at small = refl
  targets_of_members-listed found (t ∷ ts) at (s, small) =
      read_member t (found t) (targets_of_members (listed found ts)) ts s (at t)
        (targets_of_members-listed found ts at small)

eq_target_refl : (t : Target) → eq_target t t ≡ true
unfolding eq_target
eq_target_refl t =
    rw (eq_refl t.host, (eqb_iff t.port t.port).1 refl, (eqb_iff t.weight t.weight).1 refl) refl

eq_targets_refl : (ts : List Target) → eq_targets ts ts ≡ true
unfolding eq_targets
eq_targets_refl [] = refl
eq_targets_refl (t ∷ ts) = rw (eq_target_refl t) (eq_targets_refl ts)

-- If a device lists, under a common path, the members that the extension makes from the targets
-- of a message, with ports of fewer than 32 bits and the nodes found by their addresses, then
-- the pool needs no update for that message.
pub pool_members_needs_update-listed :
    {W : Type 0} (cli : F5Cli W) (f5 : BigIp) (pool : Pool) (msg : Message) (folder : String)
    (found : Target → Option Node) (w w' : W)
    → cli.pool_members pool.full_path w ≡ (w', ok (listed f5 msg folder found msg.service.targets))
    → IsFound found
    → All (λ t. t.port < 2 ^ 32) msg.service.targets
    → pool_members_needs_update cli f5 pool msg w ≡ (w', ok false)
unfolding pool_members_needs_update
pool_members_needs_update-listed cli f5 pool msg folder found w w' e at small =
    rw
      (
        e,
        targets_of_members-listed f5 msg folder found msg.service.targets at small,
        eq_targets_refl msg.service.targets,
      )
      refl
