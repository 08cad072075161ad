-- ===== src/Missions/Planning/Order.antt =====
-- The order of a default plan: what a task depends on is in an earlier batch.
use local_first_se_platform.Base.{
  ℕ, ◌≤◌, ◌<◌, String, ◌⊎◌, Bool, true, false, ◌&&◌, Option, none, some, List, [], ◌∷◌, ltb, count,
}
use local_first_se_platform.Missions.Planning.{TaskBlueprint}
use local_first_se_platform.Missions.Planning.Batches.{flatten, numbered}

-- No batch has a number below `n`.
abbrev AllFrom : ℕ → List (ℕ × List String) → Type 0
AllFrom n [] = Unit
AllFrom n (b ∷ bs) = (n ≤ b.0) × AllFrom n bs

abbrev IsSorted : List (ℕ × List String) → Type 0
IsSorted [] = Unit
IsSorted (b ∷ bs) = AllFrom b.0 bs × IsSorted bs

-- `x` is in a batch that stands before one with `y`.
abbrev pub IsBefore : String → String → List (List String) → Type 0
IsBefore x y [] = ⊥
IsBefore x y (b ∷ bs) = ((0 < count x b) × (0 < count y (flatten bs))) ⊎ IsBefore x y bs

-- The blueprint numbered `d` has a batch below `n`.
unfoldable is_below : Option TaskBlueprint → ℕ → Bool
is_below none n = false
is_below (some bp) n = ltb bp.batch n

every_number : (ℕ → Bool) → List ℕ → Bool
every_number p [] = true
every_number p (n ∷ ns) = p n && every_number p ns

deps_below : List TaskBlueprint → List TaskBlueprint → Bool
unfolding every_number is_below
deps_below all [] = true
deps_below all (bp ∷ bps) =
    every_number (λ d. is_below (numbered d all) bp.batch) bp.depends_on && deps_below all bps
