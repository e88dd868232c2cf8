-- ===== src/Model/StateModel.antt =====
-- src/model/state_model.rs: a state model's builder and its next-hop table; the table's
-- construction is in the child `Table`.
pub mod Table
pub mod Round
pub mod Paths
pub mod Hops
pub mod Shortest
pub mod Chains
pub mod Published
pub mod Positions
pub mod WellFormed
pub mod Routes
use clustodian.Base.Logic.{
  Bool, String, List, Result, none, Option, ◌+◌, [], and_then, ◌++◌, some, ◌∷◌, if◌then◌else◌, ◌==◌,
  fail_if, ok_or, false, not, ◌&&◌, ◌>>=◌, ◌>>◌, ok, err,
}
use clustodian.Model.State.{State, Transition, StateCardinality, is_dropped, exact}
use clustodian.Base.Map.{Map, get, insert, contains_key}
use clustodian.Base.Ord.{eqb, string_ord, nat_ord, pair_ord}
use clustodian.Base.Lists.{is_empty, find, contains}
use clustodian.Base.Set.{add}
use clustodian.Model.Identity.{is_empty_text}
unfoldable pub use Table.{build_transition_table}

pub record StateModelDefinition : Type 0 where
  pub name : String
  pub initial_state : State
  pub states_by_priority : List State
  pub transitions_by_priority : List Transition
  pub cardinalities : Map State StateCardinality
  pub next_states : Map State (Map State State)

pub record StateModelBuilder : Type 0 where
  pub name : String
  pub initial_state : Option State
  pub states : List (State × StateCardinality)
  pub transitions : List Transition

pub data StateModelError : Type 0 where
  empty_model_name no_states missing_initial_state missing_dropped_state : StateModelError
  unknown_initial_state no_path_to_dropped duplicate_state : State → StateModelError
  unknown_transition_state : Transition → State → StateModelError
  duplicate_transition : Transition → StateModelError

unfoldable pub cardinality_for : StateModelDefinition → State → Option StateCardinality
cardinality_for m state = get m.cardinalities state

-- `&self.states_by_priority[0]`: `build` publishes no definition without a state.
unfoldable pub highest_priority_state : StateModelDefinition → State
highest_priority_state m = elim m.states_by_priority [ [] ↦ "" | s ∷ rest ↦ s ]

pub is_exact_one : Option StateCardinality → Bool
is_exact_one (some (exact n)) = n == 1
is_exact_one other = false

unfoldable pub has_single_highest_priority_state : StateModelDefinition → Bool
unfolding is_exact_one cardinality_for highest_priority_state
has_single_highest_priority_state m = is_exact_one (cardinality_for m (highest_priority_state m))

unfoldable pub next_state_toward : StateModelDefinition → State → State → Option State
next_state_toward m from to = and_then (get m.next_states from) (λ targets. get targets to)

unfoldable pub new_builder : String → StateModelBuilder
new_builder name = record { name = name; initial_state = none; states = []; transitions = [] }

unfoldable pub set_initial_state : StateModelBuilder → State → StateModelBuilder
set_initial_state b state = record b { initial_state = some state }

unfoldable pub add_state : StateModelBuilder → State → StateCardinality → StateModelBuilder
add_state b state cardinality = record b { states = b.states ++ (state, cardinality) ∷ [] }

unfoldable pub add_transition : StateModelBuilder → Transition → StateModelBuilder
add_transition b transition = record b { transitions = b.transitions ++ transition ∷ [] }

-- The loop over the states: the set of those seen, their order and their cardinalities.
pub record Seen : Type 0 where
  pub state_set : List State
  pub states_by_priority : List State
  pub cardinalities : Map State StateCardinality

pub see_states : Seen → List (State × StateCardinality) → Result StateModelError Seen
see_states seen [] = ok seen
see_states seen ((state, cardinality) ∷ rest) =
    if contains seen.state_set state
    then err (duplicate_state state)
    else see_states
        (record {
          state_set = add seen.state_set state;
          states_by_priority = seen.states_by_priority ++ state ∷ [];
          cardinalities = insert seen.cardinalities state cardinality;
        })
        rest

abbrev pub transition_key : Transition → State × State
transition_key t = (t.source, t.target)

-- The loop over the transitions, with the set of those seen.
pub check_transitions :
    List State → List (State × State) → List Transition → Result StateModelError (Unit {0})
check_transitions state_set seen [] = ok tt
check_transitions state_set seen (t ∷ rest) =
    let later = check_transitions state_set (add seen (transition_key t)) rest in
    if not (contains state_set t.source)
    then err (unknown_transition_state t t.source)
    else if not (contains state_set t.target)
    then err (unknown_transition_state t t.target)
    else if contains seen (transition_key t)
    then err (duplicate_transition t)
    else later

-- The loop that wants a path from every other state to the dropped one.
pub check_drops :
    Map State (Map State State) → State → List State → Result StateModelError (Unit {0})
check_drops next_states dropped [] = ok tt
check_drops next_states dropped (state ∷ rest) =
    let later = check_drops next_states dropped rest in
    if not (eqb state dropped)
      && not (elim (get next_states state) [
        | none ↦ false
        | some targets ↦ contains_key targets dropped
      ])
    then err (no_path_to_dropped state)
    else later

unfoldable pub build : StateModelBuilder → Result StateModelError StateModelDefinition
unfolding see_states check_transitions check_drops
build b = do
  fail_if (is_empty_text b.name) empty_model_name
  fail_if (is_empty b.states) no_states
  seen ←
      see_states (record { state_set = []; states_by_priority = []; cardinalities = [] }) b.states
  initial ← ok_or b.initial_state missing_initial_state
  fail_if (not (contains seen.state_set initial)) (unknown_initial_state initial)
  check_transitions seen.state_set [] b.transitions
  let table = build_transition_table seen.states_by_priority b.transitions
  dropped ← ok_or (find is_dropped seen.states_by_priority) missing_dropped_state
  check_drops table dropped seen.states_by_priority
  ok (record {
    name = b.name;
    initial_state = initial;
    states_by_priority = seen.states_by_priority;
    transitions_by_priority = b.transitions;
    cardinalities = seen.cardinalities;
    next_states = table;
  })
