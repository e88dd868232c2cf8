-- ===== src/Rebalance/SemiAuto/Put.antt =====
-- Storing one replica's state, and dropping the replicas that a preference list has left.
use clustodian.Model.Replica.Stores.{Stores, get_or_empty, insert_state-Stores}
use clustodian.Base.Map.{get}
use clustodian.Model.State.{State}
use clustodian.Model.Identity.{InstanceId, PartitionId}
use clustodian.Model.Replica.{ReplicaStates, get_state, insert_state, set_state}
use clustodian.Rebalance.SemiAuto.{put_state, drop_replicas}
use clustodian.Base.Logic.{
  List, some, none, ◌≡◌, refl, [], ◌∷◌, ok, unwrap_or, if◌then◌else◌, Bool-cases, ◌∙◌, inl, inr,
  Bool, not, ◌&&◌, arith, false,
}
use clustodian.Base.Lists.{All, contains, Distinct}
use clustodian.Base.Ord.{eqb, eqb-cases, string_ord, nat_ord, pair_ord, eqb-sym}

-- A replica that has no state yet is stored.
pub put_state-Stores :
    (output : ReplicaStates) (p : PartitionId) (i : InstanceId) (s : State)
    → get_state output p i ≡ none
    → (output' : ReplicaStates) × (put_state output p i s ≡ ok output')
      × Stores output p i s output'
unfolding put_state set_state insert_state get_state
put_state-Stores output p i s e =
    let empty : get (unwrap_or (get output p) []) i ≡ none = get_or_empty (get output p) i ∙ e in
    (
      (insert_state output p i s).0,
      rw (put_state, set_state, insert_state, empty) refl,
      insert_state-Stores output p i s,
    )

-- What a read finds after the replicas of a list that `keep` refuses were dropped.
abbrev pub Drops :
    (InstanceId → Bool) → PartitionId → List InstanceId → ReplicaStates → ReplicaStates → Type 0
Drops keep p list output output' =
    (q : PartitionId) (j : InstanceId)
    → get_state output' q j ≡ (
        if eqb p q && contains list j && not (keep j) then some "DROPPED" else get_state output q j)

untouched_by :
    (output : ReplicaStates) (p : PartitionId) (i : InstanceId) (s : State) (stored : ReplicaStates)
    → Stores output p i s stored
    → (list : List InstanceId) → contains list i ≡ false
    → All (λ j. get_state output p j ≡ none) list
    → All (λ j. get_state stored p j ≡ none) list
unfolding contains
untouched_by output p i s stored stores [] n h = tt
untouched_by output p i s stored stores (j ∷ list) n h = (
  stores p j ∙ ground (arith, eqb-sym i j, h.0),
  untouched_by output p i s stored stores list (ground arith) h.1,
)

pub drop_replicas-Drops :
    (keep : InstanceId → Bool) (p : PartitionId) (list : List InstanceId) (output : ReplicaStates)
    → Distinct list
    → All (λ i. get_state output p i ≡ none) list
    → (output' : ReplicaStates) × (drop_replicas keep p list output ≡ ok output')
      × Drops keep p list output output'
unfolding drop_replicas contains
drop_replicas-Drops keep p [] output d h = (output, refl, λ q j. ground arith)
drop_replicas-Drops keep p (i ∷ rest) output d h = elim (Bool-cases (keep i)) [
  | inl kept ↦
      let (output', e, drops) = drop_replicas-Drops keep p rest output d.1 h.1 in
      (output', rw kept e, λ q j. drops q j ∙ ground (arith, eqb-cases i j))
  | inr left ↦
      let (stored, e, stores) = put_state-Stores output p i "DROPPED" h.0 in
      let untouched : All (λ j. get_state stored p j ≡ none) rest =
        untouched_by output p i "DROPPED" stored stores rest d.0 h.1 in
      let (output', e', drops) = drop_replicas-Drops keep p rest stored d.1 untouched in
      (output', rw (left, e) e', λ q j. drops q j ∙ rw (stores q j) (ground (arith, eqb-cases i j)))
]
