-- ===== src/Housekeeper/Judged.antt =====
-- What the housekeeper decides about an entry, and what that means.
use interlook.Prelude.{
  ℕ, ◌+◌, ◌-◌, ◌^◌, ◌<◌, ◌⊎◌, ◌≡◌, true, false, Option, none, some, arith, eq_iff, Bool-cases, inl,
  inr, if◌then◌else◌,
}
use interlook.Workflow.{undeployed_state}
use interlook.Entry.{WorkflowEntry, close}
use interlook.Housekeeper.{CoreConfig, removes, times_out, timeout_message, swept}

module _ (cfg : CoreConfig) (now : ℕ) where
  -- Since `t` more than `limit` has passed, which is a duration below the largest.
  abbrev pub IsPast : ℕ → ℕ → Type 0
  IsPast limit t = (t + limit < now) × (limit < 2 ^ 63 - 1)

  -- An entry that has rested in "undeployed" for too long.
  abbrev pub IsExpired : WorkflowEntry → Type 0
  IsExpired e =
      (e.state ≡ undeployed_state)
      × (e.expected_state ≡ undeployed_state)
      × (e.work_in_progress ≡ false)
      × IsPast cfg.clean_undeployed_service_after e.close_time

  -- An entry on which an extension has worked for too long.
  abbrev pub IsStuck : WorkflowEntry → Type 0
  IsStuck e = (e.work_in_progress ≡ true) × IsPast cfg.service_wip_timeout e.wip_time

  removes-IsExpired : (e : WorkflowEntry) → removes cfg now e ≡ true → IsExpired e
  unfolding removes
  removes-IsExpired e h = ground (
    arith,
    eq_iff e.state e.expected_state,
    eq_iff e.state undeployed_state,
    eq_iff e.expected_state undeployed_state,
  )

  IsExpired-removes : (e : WorkflowEntry) → IsExpired e → removes cfg now e ≡ true
  unfolding removes
  IsExpired-removes e (at, wish, idle, (past, small)) = ground (
    arith,
    eq_iff e.state e.expected_state,
    eq_iff e.state undeployed_state,
    eq_iff e.expected_state undeployed_state,
  )

  times_out-IsStuck : (e : WorkflowEntry) → times_out cfg now e ≡ true → IsStuck e
  unfolding times_out
  times_out-IsStuck e h = ground arith

  IsStuck-times_out : (e : WorkflowEntry) → IsStuck e → times_out cfg now e ≡ true
  unfolding times_out
  IsStuck-times_out e (busy, (past, small)) = ground arith

  -- What the run does to the binding `o` of a name to `p`, and to the entry at `p`.
  pub kept_or_dropped :
      (e : WorkflowEntry) (o : Option ℕ) (p : ℕ)
      → o ≡ (if removes cfg now e then none else some p)
      → (IsExpired e × (o ≡ none)) ⊎ ((¬ IsExpired e) × (o ≡ some p))
  kept_or_dropped e o p h = elim (Bool-cases (removes cfg now e)) [
    | inl gone ↦ inl (removes-IsExpired e gone, rw gone at h)
    | inr stays ↦ inr (λ x. absurd (ground (arith, IsExpired-removes e x, stays)), rw stays at h)
  ]

  pub closed_or_same :
      (e : WorkflowEntry) (o : Option WorkflowEntry)
      → o ≡ some (swept cfg now e)
      → (IsStuck e × (o ≡ some (close now (timeout_message e) e))) ⊎ ((¬ IsStuck e) × (o ≡ some e))
  unfolding swept
  closed_or_same e o h = elim (Bool-cases (times_out cfg now e)) [
    | inl late ↦ inl (times_out-IsStuck e late, rw late at h)
    | inr fine ↦ inr (λ x. absurd (ground (arith, IsStuck-times_out e x, fine)), rw fine at h)
  ]
