-- ===== src/Controller/Runtime/Current/Normalized.antt =====
-- What `normalize_current` plans with, and that none of its expectations fails.
use Prim.Native.Nat.Ordering.{lt}
use clustodian.Model.Identity.{InstanceId, PartitionId}
use clustodian.Model.State.{State}
use clustodian.Model.Replica.{ReplicaStates, set_state, get_state, insert_state}
use clustodian.Model.Replica.Stores.{
  Stores, insert_state-Stores, get_state-head, absent_nil, absent_below, get_or_empty,
}
use clustodian.Controller.Runtime.Current.{keep_replicas, keep_partitions}
use clustodian.Base.Map.{Map, get, IsSorted, get_below}
use clustodian.Base.Lists.{contains, All, All-of_In}
use clustodian.Base.Ord.{string_ord, eqb, eqb_refl, eqb_of_lt, nat_ord, pair_ord, eqb-cases}
use clustodian.Base.Logic.{
  List, if◌then◌else◌, Bool-cases, unwrap_or, ok, ◌≡◌, refl, ◌∙◌, inl, inr, ◌&&◌, Option, none,
  some, ◌∷◌, arith, [],
}

-- Storing a state that is new succeeds.
pub set_state-Stores :
    (built : ReplicaStates) (p : PartitionId) (i : InstanceId) (s : State)
    → get_state built p i ≡ none
    → (built' : ReplicaStates) × (set_state built p i s ≡ ok built') × Stores built p i s built'
unfolding set_state insert_state get_state
set_state-Stores built p i s e =
    let empty : get (unwrap_or (get built p) []) i ≡ none = get_or_empty (get built p) i ∙ e in
    (
      (insert_state built p i s).0,
      rw (set_state, insert_state, empty) refl,
      insert_state-Stores built p i s,
    )

-- `Option::or`.
abbrev pub or_else {ℓ} : {A : Type ℓ} → Option A → Option A → Option A
or_else none b = b
or_else (some a) b = some a

-- The kept states of a partition.
abbrev Keeps :
    List InstanceId → PartitionId → Map InstanceId State → ReplicaStates → ReplicaStates → Type 0
Keeps live p replicas built built' =
    (q : PartitionId) (j : InstanceId)
    → get_state built' q j ≡ (
        if eqb p q && contains live j
        then or_else (get replicas j) (get_state built q j)
        else get_state built q j)

pub fresh_after :
    (built : ReplicaStates) (p : PartitionId) (i : InstanceId) (s : State) (stored : ReplicaStates)
    → Stores built p i s stored
    → (rest : Map InstanceId State) → All (λ e. string_ord.cmp i e.0 ≡ lt) rest
    → All (λ e. get_state built p e.0 ≡ none) rest
    → All (λ e. get_state stored p e.0 ≡ none) rest
fresh_after built p i s stored stores [] above fresh = tt
fresh_after built p i s stored stores ((j, t) ∷ rest) above fresh = (
  stores p j ∙ rw (eqb_refl p, eqb_of_lt i j above.0) fresh.0,
  fresh_after built p i s stored stores rest above.1 fresh.1,
)

keep_replicas-Keeps :
    (live : List InstanceId) (p : PartitionId) (replicas : Map InstanceId State)
    (built : ReplicaStates)
    → IsSorted replicas
    → All (λ e. get_state built p e.0 ≡ none) replicas
    → (built' : ReplicaStates) × (keep_replicas live p replicas built ≡ ok built')
      × Keeps live p replicas built built'
unfolding keep_replicas get
keep_replicas-Keeps live p [] built sorted fresh = (built, refl, λ q j. ground arith)
keep_replicas-Keeps live p ((i, s) ∷ rest) built sorted fresh =
    elim (Bool-cases (contains live i)) [
      | inl e ↦
          (let (stored, is_ok, stores) = set_state-Stores built p i s fresh.0 in
            let (built', rest_ok, keeps) =
              keep_replicas-Keeps live p rest stored sorted.1
                (fresh_after built p i s stored stores rest sorted.0 fresh.1) in
            (
              built',
              rw (e, is_ok) rest_ok,
              λ q j.
                  keeps q j
                  ∙ rw (stores q j) ground (arith, eqb-cases i j, get_below rest i sorted.0),
            ))
      | inr e ↦
          (let (built', rest_ok, keeps) = keep_replicas-Keeps live p rest built sorted.1 fresh.1 in
            (built', rw e rest_ok, λ q j. keeps q j ∙ ground (arith, eqb-cases i j)))
    ]

-- The kept states of all partitions.
abbrev pub KeepsAll : List InstanceId → ReplicaStates → ReplicaStates → ReplicaStates → Type 0
KeepsAll live all built built' =
    (q : PartitionId) (j : InstanceId)
    → get_state built' q j ≡ (
        if contains live j
        then or_else (get_state all q j) (get_state built q j)
        else get_state built q j)

-- The partitions and, in each, the replicas are in a map's order.
abbrev pub AllSorted : ReplicaStates → Type 0
AllSorted all = IsSorted all × All (λ e. IsSorted e.1) all

fresh_partitions :
    (live : List InstanceId) (p : PartitionId) (replicas : Map InstanceId State)
    (built built' : ReplicaStates)
    → Keeps live p replicas built built'
    → (rest : ReplicaStates) → All (λ e. string_ord.cmp p e.0 ≡ lt) rest
    → All (λ e. (j : InstanceId) → get_state built e.0 j ≡ none) rest
    → All (λ e. (j : InstanceId) → get_state built' e.0 j ≡ none) rest
fresh_partitions live p replicas built built' keeps [] above fresh = tt
fresh_partitions live p replicas built built' keeps ((q, entries) ∷ rest) above fresh = (
  λ j. keeps q j ∙ rw (eqb_of_lt p q above.0) (fresh.0 j),
  fresh_partitions live p replicas built built' keeps rest above.1 fresh.1,
)

pub keep_partitions-KeepsAll :
    (live : List InstanceId) (all : ReplicaStates) (built : ReplicaStates)
    → AllSorted all
    → All (λ e. (j : InstanceId) → get_state built e.0 j ≡ none) all
    → (built' : ReplicaStates) × (keep_partitions live all built ≡ ok built')
      × KeepsAll live all built built'
unfolding keep_partitions
keep_partitions-KeepsAll live [] built sorted fresh =
    (built, refl, λ q j. rw (absent_nil q j) (ground arith))
keep_partitions-KeepsAll live ((p, replicas) ∷ rest) built sorted fresh =
    let (stored, is_ok, keeps) =
      keep_replicas-Keeps live p replicas built sorted.1.0
        (All-of_In _ replicas (λ e i. fresh.0 e.0)) in
    let (built', rest_ok, keeps_all) =
      keep_partitions-KeepsAll live rest stored (sorted.0.1, sorted.1.1)
        (fresh_partitions live p replicas built stored keeps rest sorted.0.0 fresh.1) in
    (
      built',
      rw is_ok rest_ok,
      λ q j.
          keeps_all q j
          ∙ rw (keeps q j, get_state-head p replicas rest q j)
              (ground (arith, eqb-cases p q, absent_below p rest sorted.0.0 j)),
    )
