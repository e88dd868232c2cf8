-- ===== src/Tests/Placements.antt =====
-- The semi-automatic placement, run with a replica that left and a partition that was removed.
use clustodian.Model.Ideal.Accepted.{Explicit, build-Explicit, listed, begun}
use clustodian.Base.Loop.{for_range}
use clustodian.Base.Set.{add, collect}
use clustodian.Base.Map.{get, insert, contains_key}
use clustodian.Base.Lists.{contains, All, filter, any, find, position, is_empty}
use clustodian.Base.Ord.{string_ord, nat_ord, pair_ord, eqb}
use clustodian.Tests.Models.{standby_model, standby_model_built}
use clustodian.Model.Builtins.{leader_standby, leader_standby_builder}
use clustodian.Model.StateModel.WellFormed.{build-WellFormed}
use clustodian.Model.StateModel.Table.{build_transition_table}
use clustodian.Model.StateModel.{build, cardinality_for, highest_priority_state, next_state_toward}
use clustodian.Model.State.{is_dropped}
use clustodian.Model.Ideal.{
  IdealState, preference_list, IdealStateBuilder, builder, set_preference_list,
  build as build_ideal,
}
use clustodian.Model.Identity.{InstanceId, is_empty_text}
use clustodian.Model.Replica.{BestPossibleState, CurrentState, get_state, insert_state}
use clustodian.Rebalance.SemiAuto.Total.{Sound, compute_places, compute_drains}
use clustodian.Rebalance.SemiAuto.Placed.{Placed}
use clustodian.Rebalance.SemiAuto.{compute_semi_auto_best_possible_state}
use clustodian.Base.Logic.{List, some, none, ◌≡◌, refl, [], ◌∷◌, ok, is_some, false, if◌then◌else◌}

abbrev wanted : IdealState
wanted = record {
  resource = "orders";
  replicas = 2;
  preference_lists = ("p0", "n1" ∷ "n2" ∷ []) ∷ [];
}

abbrev recorded : CurrentState
recorded = ("p0", ("n1", "STANDBY") ∷ ("n3", "LEADER") ∷ []) ∷ ("p9", ("n1", "LEADER") ∷ []) ∷ []

abbrev alive : List InstanceId
alive = "n1" ∷ "n2" ∷ []

inputs-Sound : Sound wanted recorded standby_model
unfolding contains string_ord eqb
inputs-Sound = record {
  lists = (tt, tt);
  preferences = ((refl, (refl, tt)), tt);
  partitions = ((refl, tt), (tt, tt));
  replicas = (((refl, tt), (tt, tt)), ((tt, tt), tt));
  states = (build-WellFormed leader_standby_builder standby_model_built).distinct;
}

abbrev placed : BestPossibleState
placed =
    ("p0", ("n1", "LEADER") ∷ ("n2", "STANDBY") ∷ ("n3", "DROPPED") ∷ [])
    ∷ ("p9", ("n1", "DROPPED") ∷ [])
    ∷ []

placed_lem : compute_semi_auto_best_possible_state wanted recorded alive standby_model ≡ ok placed
unfolding compute_semi_auto_best_possible_state cardinality_for highest_priority_state
    next_state_toward insert_state filter any preference_list get_state standby_model leader_standby
    leader_standby_builder build is_empty_text contains add eqb pair_ord string_ord nat_ord find
    is_dropped get build_transition_table insert contains_key for_range position
placed_lem = refl

removed : is_some (preference_list wanted "p9") ≡ false
unfolding preference_list get eqb string_ord
removed = refl

compute_places_example :
    (output : BestPossibleState) × (compute_semi_auto_best_possible_state wanted recorded alive
        standby_model
      ≡ ok output)
    × All (λ e. Placed recorded alive standby_model e.0 e.1 output) wanted.preference_lists
compute_places_example = compute_places wanted recorded alive standby_model inputs-Sound

compute_drains_example :
    get_state placed "p9" "n1"
    ≡ (if is_some (get_state recorded "p9" "n1") then some "DROPPED" else none)
compute_drains_example =
    compute_drains wanted recorded alive standby_model "p9" "n1" inputs-Sound placed_lem removed

abbrev first_builder : IdealStateBuilder
first_builder = record { resource = "orders"; replicas = 2; preference_lists = [] }

abbrev full_builder : IdealStateBuilder
full_builder = record {
  resource = "orders";
  replicas = 2;
  preference_lists = ("p0", "n1" ∷ "n2" ∷ []) ∷ [];
}

begun_lem : builder "orders" 2 ≡ first_builder
unfolding builder
begun_lem = refl

listed_lem : set_preference_list first_builder "p0" ("n1" ∷ "n2" ∷ []) ≡ ok full_builder
unfolding set_preference_list contains_key get insert collect eqb string_ord nat_ord
listed_lem = refl

built_lem : build_ideal full_builder ≡ ok wanted
unfolding build_ideal
built_lem = refl

build-Explicit_example :
    (wanted.replicas ≡ 2)
    × (is_empty wanted.preference_lists ≡ false)
    × Explicit 2 wanted.preference_lists
build-Explicit_example =
    build-Explicit "orders" 2 full_builder
      (listed "p0" ("n1" ∷ "n2" ∷ []) (begun begun_lem) listed_lem) built_lem
