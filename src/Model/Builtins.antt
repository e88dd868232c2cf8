-- ===== src/Model/Builtins.antt =====
-- src/model/builtins.rs: the LeaderStandby state model. `build` is called at the end of the chain;
-- that it succeeds, as the source's `expect` asks, is tested in `Tests/Models`.
use clustodian.Model.State.{State, Transition, exact, replica_count, unbounded}
use clustodian.Model.StateModel.{
  StateModelDefinition, StateModelError, new_builder, set_initial_state, add_state, add_transition,
  build, StateModelBuilder,
}
use clustodian.Base.Logic.{Result}
use clustodian.Base.Ord.{string_ord, nat_ord, pair_ord}

transition : State → State → Transition
transition from to = record { source = from; target = to }

-- The chain of builder calls of `leader_standby`.
unfoldable pub leader_standby_builder : StateModelBuilder
unfolding new_builder set_initial_state add_state add_transition transition
leader_standby_builder =
    let b0 = set_initial_state (new_builder "LeaderStandby") "OFFLINE" in
    let b1 = add_state b0 "LEADER" (exact 1) in
    let b2 = add_state b1 "STANDBY" replica_count in
    let b3 = add_state b2 "OFFLINE" unbounded in
    let b4 = add_state b3 "DROPPED" unbounded in
    let b5 = add_transition b4 (transition "LEADER" "STANDBY") in
    let b6 = add_transition b5 (transition "STANDBY" "LEADER") in
    let b7 = add_transition b6 (transition "OFFLINE" "STANDBY") in
    let b8 = add_transition b7 (transition "STANDBY" "OFFLINE") in
    add_transition b8 (transition "OFFLINE" "DROPPED")

-- `leader_standby`, before its `expect`.
unfoldable pub leader_standby : Result StateModelError StateModelDefinition
unfolding leader_standby_builder build
leader_standby = build leader_standby_builder
