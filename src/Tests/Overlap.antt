-- ===== src/Tests/Overlap.antt =====
-- Two answers of the allocator at once: the load balancer is skipped.
use interlook.Prelude.{◌≡◌, refl, false, [], ◌∷◌, arith}
use interlook.Workflow.{workflow_of, deployed_state}
use interlook.Workflow.Next.{IsNearest}
use interlook.Execute.Overlap.{checks, arrives, Shared, Leads}
use interlook.Execute.Overlap.Skips.{answers-skip}
use interlook.Tests.{names, names-IsDeployable}
use interlook.Tests.Runs.{busy_entry, ipam_answer}

to_lb : IsNearest names false 2 3 "lb.f5ltm"
to_lb = record {
  holds = refl;
  beyond = omega arith;
  stops = refl;
  passes = λ m u b e. absurd (omega (arith, b.0, b.1));
}

to_end : IsNearest names false 3 4 deployed_state
to_end = record {
  holds = refl;
  beyond = omega arith;
  stops = refl;
  passes = λ m u b e. absurd (omega (arith, b.0, b.1));
}

answers-skip_example :
    (s : Shared) × Leads
      (workflow_of names)
      (record {
        entry = busy_entry;
        threads = checks ipam_answer ∷ checks ipam_answer ∷ [];
        out = [];
      })
      s
    × (s.threads ≡ arrives ipam_answer ∷ arrives ipam_answer ∷ [])
    × (s.out ≡ [])
    × (s.entry.state ≡ deployed_state)
answers-skip_example =
    answers-skip names names-IsDeployable 7 ipam_answer ipam_answer busy_entry refl refl refl refl
      refl false 2 3 4 "lb.f5ltm" deployed_state refl refl to_lb to_end
