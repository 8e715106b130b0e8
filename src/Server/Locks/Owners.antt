-- ===== src/Server/Locks/Owners.antt =====
-- Who is between `Lock` and `Unlock`, and what the state of the lock says of it.
use interlook.Prelude.{
  ℕ, String, ◌≡◌, refl, sym, ◌∙◌, subst, Bool, true, false, Option, none, some, List, Bool-cases,
  inl, inr, arith, get_elem?,
}
use interlook.Comm.{Message}
use interlook.Workflow.{WorkflowSteps}
use interlook.Entry.{WorkflowEntry}
use interlook.Entries.{WorkflowEntries, Task, service_need_update, entry_at}
use interlook.Housekeeper.{CoreConfig, asks_refresh, refresh_service}
use interlook.Server.Locks.{
  Owner, free, by_housekeeper, by_listener, Todo, Keeper, selecting, locking, sweeping, asking,
  timing_out, Listener, merging, Threads, ask, visit, close_late, check, touch_found, merge_locked,
  Move, ticks, locks, visits, asks, closes, unlocks, polls, hands, rests, checks, touches, takes,
  merges, Runs, begin, onward,
}

abbrev pub in_sweep : Keeper → Bool
in_sweep selecting = false
in_sweep locking = false
in_sweep (sweeping _) = true
in_sweep (asking _ _ _) = true
in_sweep (timing_out _ _) = true

abbrev pub in_merge : Listener → Bool
in_merge (merging _) = true
in_merge _ = false

-- Which of the two the lock lets in.
abbrev pub Lets : Owner → Bool → Bool → Type 0
Lets free keeper listener = (keeper ≡ false) × (listener ≡ false)
Lets by_housekeeper keeper listener = (keeper ≡ true) × (listener ≡ false)
Lets by_listener keeper listener = (keeper ≡ false) × (listener ≡ true)

abbrev pub IsExclusive : Threads → Type 0
IsExclusive s = Lets s.owner (in_sweep s.keeper) (in_merge s.listener)

pub Lets-sweep :
    (o : Owner) (keeper listener : Bool)
    → keeper ≡ true
    → Lets o keeper listener
    → (o ≡ by_housekeeper) × (listener ≡ false)
Lets-sweep free k l e (h, g) = ground (arith, e, h)
Lets-sweep by_housekeeper k l e (h, g) = (refl, g)
Lets-sweep by_listener k l e (h, g) = ground (arith, e, h)

pub Lets-merge :
    (o : Owner) (keeper listener : Bool)
    → listener ≡ true
    → Lets o keeper listener
    → (o ≡ by_listener) × (keeper ≡ false)
Lets-merge free k l e (h, g) = ground (arith, e, g)
Lets-merge by_housekeeper k l e (h, g) = ground (arith, e, g)
Lets-merge by_listener k l e (h, g) = (refl, h)

in_sweep-ask :
    (r : Option (String × Message)) (p : ℕ) (todo : Todo) → in_sweep (ask r p todo) ≡ true
in_sweep-ask none p todo = refl
in_sweep-ask (some (name, msg)) p todo = refl

-- The threads but for the table, and for the keeper's place in its loop.
abbrev Stays : Threads → Threads → Type 0
Stays s t =
    (t.owner ≡ s.owner)
    × (in_sweep t.keeper ≡ in_sweep s.keeper)
    × (in_merge t.listener ≡ in_merge s.listener)

Stays-IsExclusive : (s t : Threads) → Stays s t → IsExclusive s → IsExclusive t
Stays-IsExclusive s t (o, k, l) h = rw (o, k, l) h

visit-Stays :
    (cfg : CoreConfig) (now : ℕ) (kinds : List (String × Bool)) (k : String) (p : ℕ) (todo : Todo)
    (o : Option WorkflowEntry) (s : Threads)
    → in_sweep s.keeper ≡ true
    → Stays s (visit cfg now kinds k p todo o s)
unfolding visit
visit-Stays cfg now kinds k p todo none s e = (refl, sym e, refl)
visit-Stays cfg now kinds k p todo (some entry) s e =
    elim (Bool-cases (asks_refresh cfg now entry)) [
      | inl a ↦ (
        refl,
        (rw a (in_sweep-ask (refresh_service kinds entry.service.name) p todo)) ∙ sym e,
        refl,
      )
      | inr a ↦ (refl, (rw a refl) ∙ sym e, refl)
    ]

close_late-Stays :
    (cfg : CoreConfig) (now p : ℕ) (todo : Todo) (o : Option WorkflowEntry) (s : Threads)
    → in_sweep s.keeper ≡ true
    → Stays s (close_late cfg now p todo o s)
unfolding close_late
close_late-Stays cfg now p todo none s e = (refl, sym e, refl)
close_late-Stays cfg now p todo (some entry) s e = (refl, sym e, refl)

check-Stays : (msg : Message) (s : Threads) → in_merge s.listener ≡ false → Stays s (check msg s)
unfolding check
check-Stays msg s e = elim (Bool-cases (service_need_update msg s.table)) [
  | inl a ↦ (refl, refl, (rw a refl) ∙ sym e)
  | inr a ↦ (refl, refl, (rw a refl) ∙ sym e)
]

touch_found-Stays :
    (now : ℕ) (msg : Message) (o : Option (ℕ × WorkflowEntry)) (s : Threads)
    → in_merge s.listener ≡ false
    → Stays s (touch_found now msg o s)
unfolding touch_found
touch_found-Stays now msg none s e = (refl, refl, sym e)
touch_found-Stays now msg (some (p, entry)) s e = (refl, refl, sym e)

merge_locked-IsExclusive :
    (table : WorkflowEntries) (tasks : List Task) (s : Threads)
    → in_merge s.listener ≡ true
    → IsExclusive s
    → IsExclusive (merge_locked table tasks s)
unfolding merge_locked
merge_locked-IsExclusive table tasks s e h =
    ((Lets-merge s.owner (in_sweep s.keeper) (in_merge s.listener) e h).1, refl)

module _ {tag : Message → Message} {w : WorkflowSteps} {cfg : CoreConfig}
    {kinds : List (String × Bool)} where
  Move-IsExclusive : {s t : Threads} → Move tag w cfg kinds s t → IsExclusive s → IsExclusive t
  Move-IsExclusive {s} {t} (ticks e) h = Stays-IsExclusive s t (refl, rw e refl, refl) h
  Move-IsExclusive {s} (locks e f) h =
      (refl, (subst (λ o. Lets o (in_sweep s.keeper) (in_merge s.listener)) f h).1)
  Move-IsExclusive {s} {t} (visits now k p todo e) h =
      Stays-IsExclusive s t
        (visit-Stays cfg now kinds k p todo (get_elem? s.table.heap p) s (rw e refl)) h
  Move-IsExclusive {s} {t} (asks msg reply p todo e f) h =
      Stays-IsExclusive s t (refl, rw e refl, refl) h
  Move-IsExclusive {s} {t} (closes now p todo e) h =
      Stays-IsExclusive s t
        (close_late-Stays cfg now p todo (get_elem? s.table.heap p) s (rw e refl)) h
  Move-IsExclusive {s} (unlocks e) h =
      (refl, (Lets-sweep s.owner (in_sweep s.keeper) (in_merge s.listener) (rw e refl) h).1)
  Move-IsExclusive (polls msgs e) h = h
  Move-IsExclusive {s} {t} (hands msg msgs e f) h = Stays-IsExclusive s t (refl, refl, rw f refl) h
  Move-IsExclusive (rests e) h = h
  Move-IsExclusive {s} {t} (checks msg e) h =
      Stays-IsExclusive s t (check-Stays msg s (rw e refl)) h
  Move-IsExclusive {s} {t} (touches now msg e) h =
      Stays-IsExclusive s t
        (touch_found-Stays now msg (entry_at s.table msg.service.name) s (rw e refl)) h
  Move-IsExclusive {s} (takes msg e f) h =
      ((subst (λ o. Lets o (in_sweep s.keeper) (in_merge s.listener)) f h).0, refl)
  Move-IsExclusive {s} (merges now msg {table} {tasks} e f) h =
      merge_locked-IsExclusive table tasks s (rw e refl) h

  -- In every state that the housekeeper, the listener of the provider and the provider reach
  -- from any table, the housekeeper is in its loop over the table and holds the lock, or the
  -- listener is behind the lock in `mergeMessage` and holds it, or neither is there and the
  -- lock is free: the two never change the map under the lock at once.
  pub Runs-IsExclusive : {s : Threads} → Runs tag w cfg kinds s → IsExclusive s
  Runs-IsExclusive (begin table) = (refl, refl)
  Runs-IsExclusive (onward r m) = Move-IsExclusive m (Runs-IsExclusive r)
