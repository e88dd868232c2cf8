-- ===== src/Tests/Models.antt =====
-- The built-in state model, and runs of the theorems on it.
use clustodian.Model.State.{State, is_dropped, Transition}
use clustodian.Model.Identity.{is_empty_text}
use clustodian.Model.StateModel.{StateModelDefinition, build, next_state_toward}
use clustodian.Model.StateModel.Table.{build_transition_table}
use clustodian.Model.Builtins.{leader_standby, leader_standby_builder}
use clustodian.Base.Logic.{ok, err, ◌≡◌, refl, Option, none, some, [], ℕ, suc, ◌≤◌, true, arith}
use clustodian.Base.Ord.{nat_ord, string_ord, pair_ord, eqb}
use clustodian.Base.Map.{get, insert, contains_key}
use clustodian.Base.Lists.{contains, find, position, length, In, here, there}
use clustodian.Base.Loop.{for_range}
use clustodian.Base.Set.{add}
use clustodian.Model.StateModel.WellFormed.{WellFormed, build-WellFormed}
use clustodian.Model.StateModel.Routes.{Follows, next_hops_reach, next_hop_shortest}
use clustodian.Model.StateModel.Positions.{Reaches, take, at_goal}

-- What `leader_standby` publishes.
unfoldable pub standby_model : StateModelDefinition
unfolding leader_standby
standby_model = elim leader_standby [
  | ok m ↦ m
  | err e ↦ record {
    name = "";
    initial_state = "";
    states_by_priority = [];
    transitions_by_priority = [];
    cardinalities = [];
    next_states = [];
  }
]

pub standby_model_built : build leader_standby_builder ≡ ok standby_model
unfolding standby_model leader_standby leader_standby_builder build is_empty_text contains add eqb
    pair_ord string_ord nat_ord find is_dropped get build_transition_table insert contains_key
    for_range position
standby_model_built = refl

hops : Option State × Option State
unfolding standby_model next_state_toward
hops = (
  next_state_toward standby_model "LEADER" "DROPPED",
  next_state_toward standby_model "DROPPED" "LEADER",
)

hops_lem : hops ≡ (some "STANDBY", none)
unfolding hops is_empty_text contains add eqb pair_ord string_ord nat_ord find is_dropped get
    build_transition_table insert contains_key for_range position
hops_lem = refl

standby_small : length standby_model.states_by_priority ≤ 62
unfolding standby_model leader_standby leader_standby_builder build is_empty_text contains add eqb
    pair_ord string_ord nat_ord find is_dropped get build_transition_table insert contains_key
    for_range position
standby_small = omega arith

has_leader : contains standby_model.states_by_priority "LEADER" ≡ true
unfolding standby_model leader_standby leader_standby_builder build is_empty_text contains add eqb
    pair_ord string_ord nat_ord find is_dropped get build_transition_table insert contains_key
    for_range position
has_leader = refl

has_dropped : contains standby_model.states_by_priority "DROPPED" ≡ true
unfolding standby_model leader_standby leader_standby_builder build is_empty_text contains add eqb
    pair_ord string_ord nat_ord find is_dropped get build_transition_table insert contains_key
    for_range position
has_dropped = refl

leader_path : Reaches standby_model.transitions_by_priority "DROPPED" "LEADER" 3
unfolding standby_model leader_standby leader_standby_builder build is_empty_text contains add eqb
    pair_ord string_ord nat_ord find is_dropped get build_transition_table insert contains_key
    for_range position
leader_path =
    take (record { source = "LEADER"; target = "STANDBY" }) (here refl) refl
      (take (record { source = "STANDBY"; target = "OFFLINE" }) (there (there (there (here refl))))
        refl
        (take (record { source = "OFFLINE"; target = "DROPPED" })
          (there (there (there (there (here refl))))) refl (at_goal refl)))

leader_hop : next_state_toward standby_model "LEADER" "DROPPED" ≡ some "STANDBY"
unfolding next_state_toward standby_model leader_standby leader_standby_builder build is_empty_text
    contains add eqb pair_ord string_ord nat_ord find is_dropped get build_transition_table insert
    contains_key for_range position
leader_hop = refl

build-WellFormed_example : WellFormed standby_model
build-WellFormed_example = build-WellFormed leader_standby_builder standby_model_built

next_hops_reach_example : (d : ℕ) × Follows standby_model "DROPPED" "LEADER" d × (d ≤ 3)
next_hops_reach_example =
    next_hops_reach leader_standby_builder "LEADER" "DROPPED" 3 standby_model_built standby_small
      has_leader has_dropped leader_path

next_hop_shortest_example :
    (t : Transition) × (d : ℕ) × In t standby_model.transitions_by_priority
    × (t.source ≡ "LEADER")
    × (t.target ≡ "STANDBY")
    × Reaches standby_model.transitions_by_priority "DROPPED" "STANDBY" d
    × ((w : ℕ) → Reaches standby_model.transitions_by_priority "DROPPED" "LEADER" w → suc d ≤ w)
next_hop_shortest_example =
    next_hop_shortest leader_standby_builder "LEADER" "DROPPED" "STANDBY" standby_model_built
      standby_small has_leader has_dropped (λ same. cc) leader_hop
