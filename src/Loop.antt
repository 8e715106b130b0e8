-- ===== src/Loop.antt =====
-- The loop of an extension's `Start`: a `select` over a ticker, the channel of the core and the
-- channel of the shutdown, which `Stop` writes to. What the loop takes is a sequence of events, each
-- of which is handled to its end before the next one is taken. The text of an error with which
-- `Start` returns, which is only logged, is left out.
use interlook.Prelude.{
  ℕ, ◌+◌, ◌<◌, ◌≤◌, String, Bool, ◌||◌, ◌==◌, if◌then◌else◌, ◌≡◌, refl, List, [], ◌∷◌, ◌++◌, map,
  length, length-append, All, arith,
}
use interlook.Comm.{Message, add_action, update_action, delete_action}

pub data Event : Type 0 where
  polls : Event  -- the ticker has fired
  receives : Message → Event
  stops : Event

-- Where `Start` is after the events: in the `select`, at its end without an error, waiting for its
-- wait group, or at its end with an error.
pub data Ended : Type 0 where
  waiting returned hung errored : Ended

-- What an extension does on each event: to its state and the one outside, and the messages sent.
pub record Handlers (W : Type 0) : Type 0 where
  pub on_poll : W → W × List Message
  pub on_message : Message → W → W × List Message
  pub on_stop : W → Ended

abbrev pub Served : Type 0 → Type 0
Served W = W × List Message × Ended

module _ {W : Type 0} (h : Handlers W) where
  unfoldable pub serve_events : List Event → W → Served W
  serve_events [] w = (w, [], waiting)
  serve_events (polls ∷ events) w =
      let (w1, out) = h.on_poll w in
      let (w2, rest, e) = serve_events events w1 in (w2, out ++ rest, e)
  serve_events (receives msg ∷ events) w =
      let (w1, out) = h.on_message msg w in
      let (w2, rest, e) = serve_events events w1 in (w2, out ++ rest, e)
  serve_events (stops ∷ events) w = (w, [], h.on_stop w)

  All-join {κ} :
      (P : Message → Type κ) (xs ys : List Message) → All P xs → All P ys → All P (xs ++ ys)
  All-join P [] ys a b = b
  All-join P (x ∷ xs) ys (p, a) b = (p, All-join P xs ys a b)

  -- What holds of every message that a poll or an answer sends holds of all that are sent.
  pub serve_events-All {κ} :
      (P : Message → Type κ)
      → ((w : W) → All P (h.on_poll w).1)
      → ((msg : Message) (w : W) → All P (h.on_message msg w).1)
      → (events : List Event) (w : W) → All P (serve_events events w).1
  unfolding serve_events
  serve_events-All P on_poll on_message [] w = tt
  serve_events-All P on_poll on_message (polls ∷ events) w =
      All-join P _ _ (on_poll w) (serve_events-All P on_poll on_message events (h.on_poll w).0)
  serve_events-All P on_poll on_message (receives msg ∷ events) w =
      All-join P _ _ (on_message msg w)
        (serve_events-All P on_poll on_message events (h.on_message msg w).0)
  serve_events-All P on_poll on_message (stops ∷ events) w = tt

-- The actions that a provisioner handles.
abbrev pub is_known : String → Bool
is_known action = action == add_action || (action == update_action || action == delete_action)

abbrev pub unless_known : Message → ℕ
unless_known msg = if is_known msg.action then 0 else 1

-- How many messages ask for something else.
unfoldable pub unknown_count : List Message → ℕ
unknown_count [] = 0
unknown_count (msg ∷ msgs) = unless_known msg + unknown_count msgs

-- Messages, and then the shutdown.
abbrev pub until_stop : List Message → List Event
until_stop msgs = map receives msgs ++ stops ∷ []

module _ {W : Type 0} (h : Handlers W) where
  pub serve_events-ended :
      (e : Ended)
      → ((w : W) → h.on_stop w ≡ e)
      → (msgs : List Message) (w : W) → (serve_events h (until_stop msgs) w).2 ≡ e
  unfolding serve_events
  serve_events-ended e at_stop [] w = at_stop w
  serve_events-ended e at_stop (msg ∷ msgs) w =
      serve_events-ended e at_stop msgs (h.on_message msg w).0

module _ {W : Type 0} (h : Handlers W)
    (answers : (msg : Message) (w : W) → length (h.on_message msg w).1 + unless_known msg ≡ 1) where
  -- Each message that asks for something that is handled has one answer.
  pub serve_events-length :
      (msgs : List Message) (w : W)
      → length (serve_events h (until_stop msgs) w).1 + unknown_count msgs ≡ length msgs
  unfolding serve_events unknown_count
  serve_events-length [] w = refl
  serve_events-length (msg ∷ msgs) w =
      let (w1, out) = h.on_message msg w in
      omega (
        arith,
        length-append out (serve_events h (until_stop msgs) w1).1,
        answers msg w,
        serve_events-length msgs w1,
      )

module _ {W : Type 0} (h : Handlers W)
    (answers : (msg : Message) (w : W) → 0 < length (h.on_message msg w).1) where
  pub serve_events-least :
      (msgs : List Message) (w : W) → length msgs ≤ length (serve_events h (until_stop msgs) w).1
  unfolding serve_events
  serve_events-least [] w = omega arith
  serve_events-least (msg ∷ msgs) w =
      let (w1, out) = h.on_message msg w in
      omega (
        arith,
        length-append out (serve_events h (until_stop msgs) w1).1,
        answers msg w,
        serve_events-least msgs w1,
      )
