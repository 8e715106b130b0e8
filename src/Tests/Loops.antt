-- ===== src/Tests/Loops.antt =====
-- Whole runs of extensions: a message or two, and the shutdown.
use interlook.Prelude.{
  ℕ, ◌+◌, ◌%◌, true, ◌≡◌, refl, eqb, if◌then◌else◌, none, some, List, [], ◌∷◌, length, All, arith,
}
use interlook.Comm.{Message, no_message, refresh_action}
use interlook.Calls.{ok, failed}
use interlook.Loop.{polls, receives, stops, returned, hung, Served, unknown_count, until_stop}
use interlook.F5.Loop.{serve_f5, serve_f5-ended}
use interlook.Swarm.Loop.{start_swarm, IsNews, start_swarm-IsNews}
use interlook.IpAlloc.{IpAlloc, increment_ip, load}
use interlook.IpAlloc.Records.{AreApart}
use interlook.IpAlloc.Termination.{v4, IsByte, number, increment_ip-number}
use interlook.IpAlloc.Loop.{start_ipam, start_ipam-answers}
use interlook.Tests.Devices.{allocator, allocator-IsProper, add_web, counter, f5}
use interlook.Tests.Providers.{swarm, settings}

abbrev refresh_web : Message
refresh_web = record no_message { action = refresh_action }

abbrev msgs : List Message
msgs = add_web ∷ refresh_web ∷ []

serve_f5-ended_example :
    let served = serve_f5 (λ s. failed "") "lb" "secret" f5 (some counter) (until_stop msgs) 0 in
    (length served.1 + unknown_count msgs ≡ length msgs)
    × (served.2 ≡ (if eqb (unknown_count msgs) 0 then returned else hung))
serve_f5-ended_example =
    serve_f5-ended (λ s. failed "") "lb" "secret" f5 (some counter) counter msgs 0 refl

start_swarm-IsNews_example :
    (served : Served ℕ) × (start_swarm
        (λ o. ok swarm)
        settings
        none
        (polls ∷ receives refresh_web ∷ stops ∷ [])
        0
      ≡ some served)
    × All IsNews served.1
start_swarm-IsNews_example =
    start_swarm-IsNews (λ o. ok swarm) settings none (polls ∷ receives refresh_web ∷ stops ∷ []) 0
      (λ e. absurd (omega (arith, e)))

start_ipam-answers_example :
    (i : IpAlloc) × (out : List Message) × (start_ipam 4294967297 true true msgs allocator
      ≡ some (i, out))
    × (length out ≡ length msgs)
    × AreApart i.records
unfolding load
start_ipam-answers_example =
    start_ipam-answers 4294967297 true true msgs allocator allocator-IsProper (omega arith) (tt, tt)

increment_ip-number_example :
    (a b c d : ℕ) × (increment_ip (v4 10 0 0 255) ≡ v4 a b c d)
    × (IsByte a × IsByte b × IsByte c × IsByte d)
    × (number a b c d ≡ (number 10 0 0 255 + 1) % 4294967296)
increment_ip-number_example =
    increment_ip-number 10 0 0 255 (omega arith) (omega arith) (omega arith) (omega arith)
