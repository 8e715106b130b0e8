-- ===== src/Server/Invariant.antt =====
-- What holds of every state that the program can reach.
use interlook.Prelude.{
  ℕ, zero, suc, String, ◌==◌, ◌≡◌, refl, sym, ap, ◌∙◌, subst, some, List, [], ◌∷◌, ◌++◌, length,
  get_elem?, get_elem?-lt, get_elem?-append_left, get_elem?-append_end, get_elem?-All, set, All,
  arith, eq_iff, Bool-cases, inl, inr,
}
use interlook.Comm.{Message}
use interlook.Workflow.{Transition, WorkflowSteps, workflow_of}
use interlook.Workflow.Shape.{chain, IsConfig, step_at}
use interlook.Workflow.Ends.{get_transition-chain}
use interlook.Entry.{WorkflowEntry, update_service, set_transition}
use interlook.Dict.{lookup, remove}
use interlook.Entries.{WorkflowEntries, Task, store, merge_into}
use interlook.Server.Extensions.{IsOneOf, All-append_end}
use interlook.Entries.Table.{get_elem?-set_self}
use mathlib.Core.Option.{some-injective}

-- The pointer `p` is to an entry of the service `name`.
abbrev pub PointsTo : List WorkflowEntry → ℕ → String → Type 0
PointsTo heap p name = (e : WorkflowEntry) × (get_elem? heap p ≡ some e) × (e.service.name ≡ name)

abbrev pub IsArmed : WorkflowEntry → Type 0
IsArmed e = (t : Transition) × (e.transition ≡ some t)

-- The goroutine has a transition, its message is from a step of the workflow, and its pointer is to
-- an entry of the service in the message, which has a transition.
abbrev pub IsReady : List String → List WorkflowEntry → Task → Type 0
IsReady names heap task =
    ((t : Transition) × (task.transition ≡ some t))
    × IsOneOf (chain names) task.msg.sender
    × ((e : WorkflowEntry) × (get_elem? heap task.pointer ≡ some e)
        × (e.service.name ≡ task.msg.service.name)
        × IsArmed e)

abbrev pub IsKeyed : List WorkflowEntry → String × ℕ → Type 0
IsKeyed heap (k, p) = PointsTo heap p k

abbrev pub IsWell : List String → WorkflowEntry → Type 0
IsWell names e = IsOneOf (chain names) e.state

-- Every entry is at a step of the workflow, every key is the name of the service that it leads to,
-- and every goroutine is ready.
pub record Inv (names : List String) (we : WorkflowEntries) (pending : List Task) : Type 0 where
  pub on_chain : All (IsWell names) we.heap
  pub keyed : All (IsKeyed we.heap) we.entries
  pub ready : All (IsReady names we.heap) pending

-- An entry after another one of the same service, which has a transition if that one has.
abbrev pub Follows : WorkflowEntry → WorkflowEntry → Type 0
Follows e e' = (e'.service.name ≡ e.service.name) × (IsArmed e → IsArmed e')

-- A heap in which the entry at every pointer follows the one that was there.
abbrev pub Keeps : List WorkflowEntry → List WorkflowEntry → Type 0
Keeps heap heap' =
    (p : ℕ) (e : WorkflowEntry)
    → get_elem? heap p ≡ some e
    → (e' : WorkflowEntry) × (get_elem? heap' p ≡ some e') × Follows e e'

pub All-map {ℓ κ} :
    {A : Type ℓ} (P Q : A → Type κ) (xs : List A) → ((x : A) → P x → Q x) → All P xs → All Q xs
All-map P Q [] f h = tt
All-map P Q (x ∷ xs) f (p, h) = (f x p, All-map P Q xs f h)

pub All-join {ℓ κ} :
    {A : Type ℓ} (P : A → Type κ) (xs ys : List A) → All P xs → All P ys → All P (xs ++ ys)
All-join P [] ys h k = k
All-join P (x ∷ xs) ys (p, h) k = (p, All-join P xs ys h k)

set-All :
    (P : WorkflowEntry → Type 0) (heap : List WorkflowEntry) (p : ℕ) (e : WorkflowEntry)
    → All P heap
    → P e
    → All P (set heap p e)
set-All P [] p e h q = tt
set-All P (x ∷ heap) zero e (r, h) q = (q, h)
set-All P (x ∷ heap) (suc p) e (r, h) q = (r, set-All P heap p e h q)

-- A write of an entry that follows the one that was there.
set-Keeps :
    (heap : List WorkflowEntry) (p : ℕ) (e₀ e : WorkflowEntry)
    → get_elem? heap p ≡ some e₀
    → Follows e₀ e
    → Keeps heap (set heap p e)
set-Keeps [] p e₀ e at f q e' eq = ground arith
set-Keeps (x ∷ heap) zero e₀ e at f zero e' eq =
    (e, refl, subst (λ y. Follows y e) (some-injective _ _ (sym at ∙ eq)) f)
set-Keeps (x ∷ heap) zero e₀ e at f (suc q) e' eq = (e', eq, (refl, λ h. h))
set-Keeps (x ∷ heap) (suc p) e₀ e at f zero e' eq = (e', eq, (refl, λ h. h))
set-Keeps (x ∷ heap) (suc p) e₀ e at f (suc q) e' eq = set-Keeps heap p e₀ e at f q e' eq

pub append-Keeps : (heap : List WorkflowEntry) (e : WorkflowEntry) → Keeps heap (heap ++ e ∷ [])
append-Keeps heap e p e' eq =
    (e', get_elem?-append_left heap (e ∷ []) p (get_elem?-lt heap p eq) ∙ eq, (refl, λ h. h))

module _ (names : List String) (heap heap' : List WorkflowEntry) (k : Keeps heap heap') where
  pub IsReady-Keeps :
      (pending : List Task) → All (IsReady names heap) pending → All (IsReady names heap') pending
  IsReady-Keeps pending h =
      All-map _ _ pending
        (λ task (t, s, (e, at, n, armed)).
          let (e', at', (same, arms)) = k task.pointer e at in
          (t, s, (e', at', same ∙ n, arms armed)))
        h

  pub IsKeyed-Keeps :
      (entries : List (String × ℕ)) → All (IsKeyed heap) entries → All (IsKeyed heap') entries
  IsKeyed-Keeps entries h =
      All-map _ _ entries
        (λ kp (e, at, n). let (e', at', (same, _)) = k kp.1 e at in (e', at', same ∙ n)) h

pub lookup-keyed :
    (heap : List WorkflowEntry) (entries : List (String × ℕ)) (name : String) (p : ℕ)
    → All (IsKeyed heap) entries
    → lookup name entries ≡ some p
    → PointsTo heap p name
unfolding lookup
lookup-keyed heap [] name p h eq = ground arith
lookup-keyed heap ((j, v) ∷ entries) name p (q, h) eq = elim (Bool-cases (j == name)) [
  | inl here ↦
      let same : j ≡ name = (eq_iff j name).0 here in
      let found : v ≡ p = ground arith in
      subst (λ m. PointsTo heap m name) found (subst (λ m. PointsTo heap v m) same q)
  | inr there ↦ lookup-keyed heap entries name p h (ground arith)
]

pub remove-All :
    (P : String × ℕ → Type 0) (k : String) (entries : List (String × ℕ))
    → All P entries
    → All P (remove k entries)
unfolding remove
remove-All P k [] h = tt
remove-All P k ((j, v) ∷ entries) (p, h) = elim (Bool-cases (j == k)) [
  | inl e ↦ rw e (remove-All P k entries h)
  | inr e ↦ rw e (p, remove-All P k entries h)
]

set-append_end :
    (heap : List WorkflowEntry) (e e' : WorkflowEntry)
    → set (heap ++ e ∷ []) (length heap) e' ≡ heap ++ e' ∷ []
set-append_end [] e e' = refl
set-append_end (x ∷ heap) e e' = ap (λ h. x ∷ h) (set-append_end heap e e')

module _ (names : List String) where
  -- An entry at a step of the workflow is written in place of one that it follows.
  pub store-Inv :
      (we : WorkflowEntries) (pending : List Task) (p : ℕ) (e₀ e : WorkflowEntry)
      → Inv names we pending
      → get_elem? we.heap p ≡ some e₀
      → Follows e₀ e
      → IsWell names e
      → Inv names (store p e we) pending
  store-Inv we pending p e₀ e v at f s =
      let k = set-Keeps we.heap p e₀ e at f in
      record {
        on_chain = set-All (IsWell names) we.heap p e v.on_chain s;
        keyed = IsKeyed-Keeps names we.heap (set we.heap p e) k we.entries v.keyed;
        ready = IsReady-Keeps names we.heap (set we.heap p e) k pending v.ready;
      }

  module _ (c : IsConfig names) (msg : Message) (from : IsOneOf (chain names) msg.sender) where
    abbrev flow : WorkflowSteps
    flow = workflow_of names

    abbrev merged_entry : WorkflowEntry → WorkflowEntry
    merged_entry e = set_transition flow msg.sender (update_service msg e)

    sender_transition :
        (e : WorkflowEntry) → (t : Transition) × ((merged_entry e).transition ≡ some t)
    unfolding set_transition
    sender_transition e = (
      (step_at names from.0 msg.sender).transition,
      get_transition-chain names c from.0 msg.sender from.1,
    )

    merged_entry_kept :
        (e : WorkflowEntry)
        → ((merged_entry e).service.name ≡ msg.service.name) × ((merged_entry e).state ≡ e.state)
    unfolding set_transition update_service
    merged_entry_kept e = (refl, refl)

    merged_entry-IsWell :
        (e : WorkflowEntry) → IsOneOf (chain names) e.state → IsWell names (merged_entry e)
    unfolding set_transition update_service
    merged_entry-IsWell e s = s

    pub merge_into-Inv :
        (we : WorkflowEntries) (pending : List Task) (p : ℕ) (e : WorkflowEntry)
        → Inv names we pending
        → get_elem? we.heap p ≡ some e
        → e.service.name ≡ msg.service.name
        → let r = merge_into flow msg p e we in Inv names r.0 (pending ++ r.1)
    unfolding merge_into
    merge_into-Inv we pending p e v at same =
        let e' = merged_entry e in
        let s = get_elem?-All (IsWell names) we.heap p e v.on_chain at in
        let follows : Follows e e' =
          ((merged_entry_kept e).0 ∙ sym same, λ _. sender_transition e) in
        let v' = store-Inv we pending p e e' v at follows (merged_entry-IsWell e s) in
        record {
          on_chain = v'.on_chain;
          keyed = v'.keyed;
          ready =
              All-append_end (IsReady names (set we.heap p e')) pending
                (record { pointer = p; transition = e'.transition; msg = msg }) v'.ready
                (
                  sender_transition e,
                  from,
                  (
                    e',
                    get_elem?-set_self we.heap p e' (get_elem?-lt we.heap p at),
                    (merged_entry_kept e).0,
                    sender_transition e,
                  ),
                );
        }

    pub with_new-Inv :
        (we : WorkflowEntries) (pending : List Task) (e : WorkflowEntry)
        → Inv names we pending
        → IsOneOf (chain names) e.state
        → let p = length we.heap in
          let r = merge_into flow msg p e (record {
            entries = we.entries ++ (msg.service.name, p) ∷ [];
            heap = we.heap ++ e ∷ [];
          }) in
          Inv names r.0 (pending ++ r.1)
    unfolding merge_into
    with_new-Inv we pending e v s =
        let p = length we.heap in
        let e' = merged_entry e in
        let heap' = we.heap ++ e' ∷ [] in
        let k = append-Keeps we.heap e' in
        let here : PointsTo heap' p msg.service.name =
          (e', get_elem?-append_end we.heap e', (merged_entry_kept e).0) in
        rw (set-append_end we.heap e e') (record {
          on_chain = All-append_end (IsWell names) we.heap e' v.on_chain (merged_entry-IsWell e s);
          keyed =
              All-append_end (IsKeyed heap') we.entries (msg.service.name, p)
                (IsKeyed-Keeps names we.heap heap' k we.entries v.keyed) here;
          ready =
              All-append_end (IsReady names heap') pending
                (record { pointer = p; transition = e'.transition; msg = msg })
                (IsReady-Keeps names we.heap heap' k pending v.ready)
                (
                  sender_transition e,
                  from,
                  (
                    e',
                    get_elem?-append_end we.heap e',
                    (merged_entry_kept e).0,
                    sender_transition e,
                  ),
                );
        })
