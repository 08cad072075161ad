-- ===== src/Missions/Planning/Tests.antt =====
-- Plans of a goal for each team size.
use local_first_se_platform.Base.{◌≡◌, refl, none, [], ◌∷◌, map, length}
use local_first_se_platform.Missions.Planning.{
  estimate, estimate_from, plan_from, batch_map, add_to_batch, sort_batches, sorted_in,
}
use local_first_se_platform.Missions.Planning.Tables.{
  blueprints, small_blueprints, select_blueprints, plan_mission,
}

large_has_ten : length (select_blueprints (estimate "a saas platform" 3)) ≡ 10
unfolding estimate estimate_from select_blueprints blueprints
large_has_ten = refl

small_is_simple : length (select_blueprints (estimate "a simple tool" 3)) ≡ 3
unfolding estimate estimate_from select_blueprints small_blueprints
small_is_simple = refl

batches_of_default_plan :
    map length (plan_mission "m" "a tool" "a tool" 2 none none).execution_batches
    ≡ 1 ∷ 1 ∷ 1 ∷ 1 ∷ 2 ∷ []
unfolding plan_mission plan_from estimate estimate_from select_blueprints blueprints batch_map
    add_to_batch sort_batches sorted_in
batches_of_default_plan = refl
