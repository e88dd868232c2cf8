-- ===== src/Controller/Selection/Safety.antt =====
-- What message selection guarantees of a whole call.
use clustodian.Model.Identity.{InstanceId, PartitionId, ResourceId}
use clustodian.Model.State.{State}
use clustodian.Model.Replica.{CurrentState}
use clustodian.Model.Ideal.{IdealState}
use clustodian.Model.StateModel.{StateModelDefinition, cardinality_for}
use clustodian.Transition.{TransitionRequest, PendingTransition}
use clustodian.Controller.Selection.{
  group_candidates, group_pending, select_at, select_partitions, select_transitions,
}
use clustodian.Controller.Selection.Counting.{state_bounds, collect_bounds, bound_of}
use clustodian.Controller.Selection.Counts.{effective_state}
use clustodian.Controller.Selection.Greedy.{entering}
use clustodian.Controller.Selection.Grouping.{at, group_candidates-Filed, count-group_pending}
use clustodian.Controller.Selection.Bounds.{
  occupied, entering_at, Room, chosen, select_partition-Room, select_partitions-All,
  count-select_partitions,
}
use clustodian.Base.Logic.{
  >>=-eq-ok, ok-injective, ok, ℕ, ◌≡◌, ◌⊎◌, inl, inr, true, some, List, ◌∷◌, [], Option-cases, ◌+◌,
  refl, ◌∙◌, arith,
}
use clustodian.Base.Lists.{length, contains, Distinct, count, All, All-imp, In}
use clustodian.Base.Map.{Map, keys, get, get-insert_self, get-insert_ne}
use clustodian.Base.Ord.{eqb-cases, string_ord, nat_ord, pair_ord, eqb}
use clustodian.Base.Set.{extend, collect, extend-IsOrdered, IsOrdered-Distinct}

get-collect_bounds :
    (m : StateModelDefinition) (live : ℕ) (s : State) (b : ℕ) (states : List State)
    (bounds : Map State ℕ)
    → bound_of (cardinality_for m s) live ≡ some b
    → (contains states s ≡ true) ⊎ (get bounds s ≡ some b)
    → get (collect_bounds m live bounds states) s ≡ some b
unfolding collect_bounds contains
get-collect_bounds m live s b [] bounds e (inl h) = absurd cc
get-collect_bounds m live s b [] bounds e (inr h) = h
get-collect_bounds m live s b (t ∷ states) bounds e h =
    get-collect_bounds m live s b states _ e (elim (eqb-cases t s) [
      | inl (_, same) ↦ inr (rw (same, e, same) (get-insert_self bounds s b))
      | inr (n, other) ↦ elim h [
        | inl k ↦ inl (rw n at k)
        | inr k ↦ inr (elim (Option-cases (bound_of (cardinality_for m t) live)) [
          | inl none_there ↦ rw none_there k
          | inr (v, there_is) ↦ rw there_is (get-insert_ne bounds t v s other ∙ k)
        ])
      ]
    ])

get-state_bounds :
    (m : StateModelDefinition) (live : ℕ) (s : State) (b : ℕ)
    → contains m.states_by_priority s ≡ true
    → bound_of (cardinality_for m s) live ≡ some b
    → get (state_bounds m live) s ≡ some b
unfolding state_bounds
get-state_bounds m live s b known e =
    get-collect_bounds m live s b m.states_by_priority [] e (inl known)

-- The parts of a call that succeeds.
record Parts (resource : ResourceId) (ideal : IdealState) (current : CurrentState)
    (live : List InstanceId) (candidates : List TransitionRequest)
    (pending : List PendingTransition) (m : StateModelDefinition)
    (selected : List TransitionRequest) : Type 0 where
  groups : Map PartitionId (List TransitionRequest)
  waiting : Map PartitionId (List PendingTransition)
  walked : List PartitionId
  grouped : group_candidates resource ideal current m [] candidates ≡ ok groups
  filed : group_pending ideal current m [] [] pending ≡ ok waiting
  ordered : Distinct walked
  result :
      select_partitions (state_bounds m (length live)) current live m waiting groups walked
      ≡ selected

select_transitions-Parts :
    (resource : ResourceId) (ideal : IdealState) (current : CurrentState) (live : List InstanceId)
    (candidates : List TransitionRequest) (pending : List PendingTransition)
    (m : StateModelDefinition) {selected : List TransitionRequest}
    → select_transitions resource ideal current live candidates pending m ≡ ok selected
    → Parts resource ideal current live candidates pending m selected
unfolding select_transitions collect
select_transitions-Parts resource ideal current live candidates pending m h =
    let (groups, grouped, h1) =
      >>=-eq-ok (group_candidates resource ideal current m [] candidates) _ h in
    let (waiting, filed, h2) = >>=-eq-ok (group_pending ideal current m [] [] pending) _ h1 in
    record {
      groups = groups;
      waiting = waiting;
      walked = extend (extend [] (keys ideal.preference_lists)) (keys groups);
      grouped = grouped;
      filed = filed;
      ordered =
          IsOrdered-Distinct _ (
            extend-IsOrdered (keys groups) _
              (extend-IsOrdered (keys ideal.preference_lists) [] tt));
      result = ok-injective h2;
    }

-- A successful selection takes no partition past the bound of a state: where a state of the model
-- has a bound (a fixed cardinality, or the number of live instances), either nothing is selected
-- into it for the partition, or all that is selected fits under the bound beside the live replicas
-- in the state and the ends of the transitions in flight.
pub select_transitions_bounded :
    (resource : ResourceId) (ideal : IdealState) (current : CurrentState) (live : List InstanceId)
    (candidates : List TransitionRequest) (pending : List PendingTransition)
    (m : StateModelDefinition) (p : PartitionId) (s : State) (bound : ℕ)
    {selected : List TransitionRequest}
    → select_transitions resource ideal current live candidates pending m ≡ ok selected
    → contains m.states_by_priority s ≡ true
    → bound_of (cardinality_for m s) (length live) ≡ some bound
    → Room (count (entering_at p s) selected) (occupied current m p s live pending) bound
unfolding select_at count get
select_transitions_bounded resource ideal current live candidates pending m p s bound {selected} h
      known limit =
    rw (← parts.result) (
      ground (
        arith,
        count-select_partitions (state_bounds m (length live)) current live m parts.waiting
            parts.groups own p s parts.walked parts.ordered,
        count-group_pending (λ t. eqb t.source_state s) ideal current m p pending [] [] parts.filed,
        count-group_pending (λ t. eqb t.target_state s) ideal current m p pending [] [] parts.filed,
        room_of_chosen,
      ))
  where
    parts : Parts resource ideal current live candidates pending m selected
    parts = select_transitions-Parts resource ideal current live candidates pending m h

    own : (q : PartitionId) → All (λ r. r.partition ≡ q) (at parts.groups q)
    own q =
        All-imp (λ r k. k.0) (at parts.groups q)
          (group_candidates-Filed (λ c. Unit {0}) resource ideal current m candidates []
            parts.grouped (λ c e i. tt) (λ k. tt) q)

    room_of_chosen :
        Room
          (count
            (entering s)
            (chosen (state_bounds m (length live)) current live m parts.waiting parts.groups p))
          (count (λ i. eqb (effective_state current m p i) s) live
            + count (λ t. eqb t.source_state s) (at parts.waiting p)
            + count (λ t. eqb t.target_state s) (at parts.waiting p))
          bound
    room_of_chosen = elim (Option-cases (get parts.groups p)) [
      | inl e ↦ rw (e, select_at) (inl refl)
      | inr (g, e) ↦
          rw (e, select_at)
            (select_partition-Room (state_bounds m (length live)) s bound
              (get-state_bounds m (length live) s bound known limit) current live m parts.waiting p
              g)
    ]

-- Message selection invents nothing: every transition that it selects is one of the candidates,
-- and belongs to the resource.
pub select_transitions_sound :
    (resource : ResourceId) (ideal : IdealState) (current : CurrentState) (live : List InstanceId)
    (candidates : List TransitionRequest) (pending : List PendingTransition)
    (m : StateModelDefinition) {selected : List TransitionRequest}
    → select_transitions resource ideal current live candidates pending m ≡ ok selected
    → All (λ r. In r candidates × (r.resource ≡ resource)) selected
unfolding get
select_transitions_sound resource ideal current live candidates pending m {selected} h =
    let parts = select_transitions-Parts resource ideal current live candidates pending m h in
    rw (← parts.result) (
      select_partitions-All (state_bounds m (length live)) current live m parts.waiting parts.groups
        (λ r. In r candidates × (r.resource ≡ resource)) parts.walked
        (λ p.
          All-imp (λ r k. k.1) (at parts.groups p)
            (group_candidates-Filed (λ r. In r candidates × (r.resource ≡ resource)) resource ideal
              current m candidates [] parts.grouped (λ c e i. (i, e)) (λ k. tt) p)))
