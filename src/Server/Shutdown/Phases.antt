-- ===== src/Server/Shutdown/Phases.antt =====
-- What holds in each phase of a shutdown: what is over when the table is saved.
use interlook.Prelude.{
  ℕ, suc, ◌+◌, ◌≡◌, String, Bool, true, false, List, [], ◌∷◌, ◌++◌, length, ◌⊎◌, All, if◌then◌else◌,
}
use interlook.Server.Shutdown.{
  SignalHandler, listening, halting, stopping, closing_api, Shutdown, KeeperPhase, gone,
}

module _ (returns : String → Bool) (extensions : List String) where
  abbrev pub AreDown : List String → Type 0
  AreDown = All (λ name. returns name ≡ true)

  -- How many of the extensions hang.
  unfoldable hung_count : List String → ℕ
  hung_count [] = 0
  hung_count (name ∷ names) = if returns name then hung_count names else suc (hung_count names)

  abbrev is_up : KeeperPhase → Bool
  is_up gone = false
  is_up _ = true

  -- Before the first signal is handled, and after.
  abbrev IsUp : Shutdown → Type 0
  IsUp s =
      (is_up s.keeper ≡ true)
      × (s.core_wg ≡ 2 + s.merging)
      × (s.extensions_wg ≡ length extensions)
      × (s.saved ≡ false)

  abbrev IsDown : Shutdown → Type 0
  IsDown s =
      (s.keeper ≡ gone)
      × (s.api_up ≡ false)
      × (s.core_wg ≡ s.merging)
      × AreDown extensions
      × ((s.saved ≡ false) ⊎ (s.merging ≡ 0))

  abbrev pub IsOff : Shutdown → Type 0
  IsOff s =
      (s.keeper ≡ gone)
      × (s.api_up ≡ false)
      × (s.merging ≡ 0)
      × (s.core_wg ≡ 0)
      × AreDown extensions

  -- While the extensions are stopped: those before `todo` have been asked.
  abbrev IsGoing : List String → Shutdown → Type 0
  IsGoing todo s =
      (asked : List String) × (asked ++ todo ≡ extensions)
      × (s.extensions_wg ≡ length todo + hung_count asked)
      × (s.keeper ≡ gone)
      × (s.core_wg ≡ 1 + s.merging)
      × (s.saved ≡ false)

  abbrev Phase : SignalHandler → Shutdown → Type 0
  Phase listening s = IsUp s ⊎ IsDown s
  Phase halting s = IsUp s ⊎ IsDown s
  Phase (stopping todo) s = IsGoing todo s
  Phase closing_api s =
      AreDown extensions × (s.keeper ≡ gone) × (s.core_wg ≡ 1 + s.merging) × (s.saved ≡ false)
