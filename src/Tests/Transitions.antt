-- ===== src/Tests/Transitions.antt =====
-- The generation and the selection of transitions, run on the built-in model.
use clustodian.Controller.Selection.Safety.{select_transitions_bounded, select_transitions_sound}
use clustodian.Controller.Generation.Requests.{
  Justified, generate_transitions_sound, generate_transitions_complete,
}
use clustodian.Controller.Generation.Validation.{
  Covered, Holds, generate_transitions_total, generate_transitions_requires,
}
use clustodian.Controller.Selection.{select_transitions, is_drop_path}
use clustodian.Controller.Selection.Counting.{bound_of}
use clustodian.Controller.Generation.{generate_transitions}
use clustodian.Model.Ideal.{IdealState}
use clustodian.Transition.{TransitionRequest}
use clustodian.Model.Builtins.{leader_standby, leader_standby_builder}
use clustodian.Model.StateModel.Table.{build_transition_table}
use clustodian.Model.StateModel.{build, next_state_toward, cardinality_for}
use clustodian.Model.State.{State, is_dropped}
use clustodian.Model.Identity.{InstanceId, is_empty_text}
use clustodian.Model.Replica.{get_state, CurrentState, BestPossibleState}
use clustodian.Base.Loop.{for_range}
use clustodian.Base.Lists.{contains, find, position, count, here, In, All}
use clustodian.Base.Set.{add}
use clustodian.Base.Map.{get, insert, contains_key, push_at}
use clustodian.Base.Ord.{eqb, nat_ord, string_ord, pair_ord}
use clustodian.Base.Logic.{List, some, ◌≡◌, refl, [], ◌∷◌, true, ok}
use clustodian.Tests.Models.{standby_model}
use clustodian.Controller.Selection.Bounds.{Room, entering_at, occupied}

abbrev request : InstanceId → State → State → TransitionRequest
request i from to = record {
  resource = "orders";
  partition = "p0";
  replica = i;
  source_state = from;
  target_state = to;
}

abbrev current_map : CurrentState
current_map = ("p0", ("n1", "OFFLINE") ∷ ("n2", "LEADER") ∷ []) ∷ []

abbrev target_map : BestPossibleState
target_map = ("p0", ("n1", "LEADER") ∷ ("n2", "STANDBY") ∷ []) ∷ []

abbrev wanted : List TransitionRequest
wanted = request "n1" "OFFLINE" "STANDBY" ∷ request "n2" "LEADER" "STANDBY" ∷ []

generated : generate_transitions "orders" current_map target_map standby_model ≡ ok wanted
unfolding generate_transitions get_state next_state_toward standby_model leader_standby
    leader_standby_builder build is_empty_text contains add eqb pair_ord string_ord nat_ord find
    is_dropped get build_transition_table insert contains_key for_range position
generated = refl

held : Holds target_map "p0" "n1" "LEADER"
held = (("n1", "LEADER") ∷ ("n2", "STANDBY") ∷ [], here refl, here refl)

offline_hop : next_state_toward standby_model "OFFLINE" "LEADER" ≡ some "STANDBY"
unfolding next_state_toward standby_model leader_standby leader_standby_builder build is_empty_text
    contains add eqb pair_ord string_ord nat_ord find is_dropped get build_transition_table insert
    contains_key for_range position
offline_hop = refl

offline_now : get_state current_map "p0" "n1" ≡ some "OFFLINE"
unfolding get_state get eqb string_ord
offline_now = refl

generate_transitions_requires_example :
    Covered target_map current_map × Covered current_map target_map
generate_transitions_requires_example =
    generate_transitions_requires "orders" current_map target_map standby_model generated

covered : Covered target_map current_map × Covered current_map target_map
covered = generate_transitions_requires "orders" current_map target_map standby_model generated

generate_transitions_total_example :
    (q : List TransitionRequest) × (generate_transitions "orders" current_map target_map
        standby_model
      ≡ ok q)
generate_transitions_total_example =
    generate_transitions_total "orders" current_map target_map standby_model covered.0 covered.1

generate_transitions_sound_example :
    All (Justified "orders" current_map target_map standby_model) wanted
generate_transitions_sound_example =
    generate_transitions_sound "orders" current_map target_map standby_model generated

generate_transitions_complete_example : In (request "n1" "OFFLINE" "STANDBY") wanted
generate_transitions_complete_example =
    generate_transitions_complete "orders" current_map target_map standby_model "p0" "n1" "OFFLINE"
      "LEADER" "STANDBY" generated offline_now held (λ same. cc) offline_hop

-- Two standby replicas both want to lead: one of them is selected.
abbrev placement : IdealState
placement = record {
  resource = "orders";
  replicas = 2;
  preference_lists = ("p0", "n1" ∷ "n2" ∷ []) ∷ [];
}

abbrev standbys : CurrentState
standbys = ("p0", ("n1", "STANDBY") ∷ ("n2", "STANDBY") ∷ []) ∷ []

abbrev rivals : List TransitionRequest
rivals = request "n1" "STANDBY" "LEADER" ∷ request "n2" "STANDBY" "LEADER" ∷ []

abbrev winner : List TransitionRequest
winner = request "n1" "STANDBY" "LEADER" ∷ []

selected_one :
    select_transitions "orders" placement standbys ("n1" ∷ "n2" ∷ []) rivals [] standby_model
    ≡ ok winner
unfolding select_transitions push_at count get_state is_drop_path standby_model leader_standby
    leader_standby_builder build is_empty_text contains add eqb pair_ord string_ord nat_ord find
    is_dropped get build_transition_table insert contains_key for_range position
selected_one = refl

knows_leader : contains standby_model.states_by_priority "LEADER" ≡ true
unfolding standby_model leader_standby leader_standby_builder build is_empty_text contains add eqb
    pair_ord string_ord nat_ord find is_dropped get build_transition_table insert contains_key
    for_range position
knows_leader = refl

leader_bound : bound_of (cardinality_for standby_model "LEADER") 2 ≡ some 1
unfolding bound_of cardinality_for standby_model leader_standby leader_standby_builder build
    is_empty_text contains add eqb pair_ord string_ord nat_ord find is_dropped get
    build_transition_table insert contains_key for_range position
leader_bound = refl

select_transitions_bounded_example :
    Room
      (count (entering_at "p0" "LEADER") winner)
      (occupied standbys standby_model "p0" "LEADER" ("n1" ∷ "n2" ∷ []) [])
      1
select_transitions_bounded_example =
    select_transitions_bounded "orders" placement standbys ("n1" ∷ "n2" ∷ []) rivals []
      standby_model "p0" "LEADER" 1 selected_one knows_leader leader_bound

select_transitions_sound_example : All (λ r. In r rivals × (r.resource ≡ "orders")) winner
select_transitions_sound_example =
    select_transitions_sound "orders" placement standbys ("n1" ∷ "n2" ∷ []) rivals [] standby_model
      selected_one
