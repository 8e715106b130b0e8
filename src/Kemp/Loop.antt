-- ===== src/Kemp/Loop.antt =====
-- provisioner/loadbalancer/kemplm/kemplm.go: the whole of `Start`.
use interlook.Prelude.{◌+◌, ◌≡◌, refl, List, length, inl, inr}
use interlook.Comm.{Message}
use interlook.Calls.{ok}
use interlook.Loop.{
  returned, unless_known, unknown_count, until_stop, serve_events-length, serve_events-ended,
}
use interlook.Kemp.{HttpClient, KempLm, start_kemp, kemp_handlers, serve_kemp}
use interlook.Kemp.Replies.{receive_kemp-answers}

module _ {W : Type 0} (cli : HttpClient W) where
  handlers-length :
      (k : KempLm) (msg : Message) (w : W)
      → length ((kemp_handlers cli k).on_message msg w).1 + unless_known msg ≡ 1
  unfolding kemp_handlers
  handlers-length k msg w = elim (receive_kemp-answers cli k msg w) [
    | inl (known, (err, e)) ↦ rw (e, known) refl
    | inr (unknown, e) ↦ rw (e, unknown) refl
  ]

  handlers-stop : (k : KempLm) (w : W) → (kemp_handlers cli k).on_stop w ≡ returned
  unfolding kemp_handlers
  handlers-stop k w = refl

  -- Each message has one answer but those of another action, and `Start` returns.
  pub serve_kemp-length :
      (k ready : KempLm) (msgs : List Message) (w w1 : W)
      → start_kemp cli k w ≡ (w1, ok ready)
      → let served = serve_kemp cli k (until_stop msgs) w in
        (length served.1 + unknown_count msgs ≡ length msgs) × (served.2 ≡ returned)
  unfolding serve_kemp
  serve_kemp-length k ready msgs w w1 e = rw e (
    serve_events-length (kemp_handlers cli ready) (handlers-length ready) msgs w1,
    serve_events-ended (kemp_handlers cli ready) returned (handlers-stop ready) msgs w1,
  )
