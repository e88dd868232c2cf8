-- ===== src/Controller/Runtime/Current/Active.antt =====
-- What `active_current_state` shows, and that none of its expectations fails.
use Prim.Native.Nat.Ordering.{lt}
use clustodian.Model.Identity.{InstanceId, PartitionId, ResourceId}
use clustodian.Model.State.{State}
use clustodian.Model.Session.{ActiveCurrentState}
use clustodian.Model.Replica.{ReplicaStates, CurrentState, get_state}
use clustodian.Model.Replica.Stores.{absent_nil, absent_below, get_state-head}
use clustodian.Controller.Runtime.Current.{
  gather_replicas, gather_partitions, gather_resources, gather_instances, rebuild_replicas,
  rebuild_partitions, rebuild_resources, active_current_state,
}
use clustodian.Controller.Runtime.Current.Normalized.{
  set_state-Stores, fresh_after, or_else, AllSorted,
}
use clustodian.Base.Map.{
  Map, get, IsSorted, insert-IsSorted, insert-All, insert, contains_key, get-In, get_below,
}
use clustodian.Base.Lists.{All, In-All, contains, All-of_In, All-imp}
use clustodian.Base.Ord.{string_ord, eqb, eqb-cases, eqb_of_lt, nat_ord, pair_ord}
use clustodian.Base.Logic.{
  List, if◌then◌else◌, Bool-cases, Option-cases, unwrap_or, ok, String, ◌≡◌, refl, ◌∙◌, inl, inr,
  true, not, ◌||◌, none, ◌∷◌, arith, [], sym, Option, some,
}

-- What holds of every value of a map, and of the default, holds of the value of a key.
get-All {ℓ κ} :
    {V : Type ℓ} (P : V → Type κ) (m : Map String V) (k : String) (default : V)
    → P default
    → All (λ e. P e.1) m
    → P (unwrap_or (get m k) default)
get-All P m k default d h = elim (Option-cases (get m k)) [
  | inl e ↦ rw e d
  | inr (v, e) ↦ rw e (In-All (λ x. P x.1) (get-In m k v e) h)
]

module _ (configs : Map InstanceId String) (live : List InstanceId) where
  -- The replica is configured and live.
  abbrev pub Shown : InstanceId → Type 0
  Shown i = (contains_key configs i ≡ true) × (contains live i ≡ true)

  abbrev GoodReplicas : Map InstanceId State → Type 0
  GoodReplicas states = IsSorted states × All (λ e. Shown e.0) states

  abbrev GoodStates : ReplicaStates → Type 0
  GoodStates states = IsSorted states × All (λ e. GoodReplicas e.1) states

  gather_replicas-Good :
      (replicas states : Map InstanceId State)
      → GoodReplicas states
      → GoodReplicas (gather_replicas configs live replicas states)
  unfolding gather_replicas
  gather_replicas-Good [] states h = h
  gather_replicas-Good ((i, s) ∷ rest) states h =
      elim (Bool-cases (not (contains_key configs i) || not (contains live i))) [
        | inl e ↦ rw e (gather_replicas-Good rest states h)
        | inr e ↦ rw e (
            gather_replicas-Good rest (insert states i s) (
              insert-IsSorted states i s h.0,
              insert-All (λ x. Shown x.0) states i s (ground arith, ground arith) h.1,
            ))
      ]

  gather_partitions-Good :
      (current states : ReplicaStates)
      → GoodStates states
      → GoodStates (gather_partitions configs live current states)
  unfolding gather_partitions
  gather_partitions-Good [] states h = h
  gather_partitions-Good ((p, replicas) ∷ rest) states h =
      let inner = gather_replicas configs live replicas (unwrap_or (get states p) []) in
      gather_partitions-Good rest (insert states p inner) (
        insert-IsSorted states p inner h.0,
        insert-All (λ x. GoodReplicas x.1) states p inner
            (gather_replicas-Good replicas _ (get-All GoodReplicas states p [] (tt, tt) h.1)) h.1,
      )

  abbrev GoodResources : Map ResourceId ReplicaStates → Type 0
  GoodResources states = All (λ e. GoodStates e.1) states

  gather_resources-Good :
      (resources : Map ResourceId CurrentState) (states : Map ResourceId ReplicaStates)
      → GoodResources states
      → GoodResources (gather_resources configs live resources states)
  unfolding gather_resources
  gather_resources-Good [] states h = h
  gather_resources-Good ((r, current) ∷ rest) states h =
      let inner = gather_partitions configs live current (unwrap_or (get states r) []) in
      gather_resources-Good rest (insert states r inner) (
        insert-All (λ x. GoodStates x.1) states r inner
          (gather_partitions-Good current _ (get-All GoodStates states r [] (tt, tt) h)) h)

  gather_instances-Good :
      (active : Map InstanceId ActiveCurrentState) (states : Map ResourceId ReplicaStates)
      → GoodResources states
      → GoodResources (gather_instances configs live active states)
  unfolding gather_instances
  gather_instances-Good [] states h = h
  gather_instances-Good ((i, a) ∷ rest) states h =
      gather_instances-Good rest (gather_resources configs live a.resources states)
        (gather_resources-Good a.resources states h)

-- The rebuilt states of a partition.
abbrev Rebuilds : PartitionId → Map InstanceId State → ReplicaStates → ReplicaStates → Type 0
Rebuilds p replicas built built' =
    (q : PartitionId) (j : InstanceId)
    → get_state built' q j
      ≡ (if eqb p q then or_else (get replicas j) (get_state built q j) else get_state built q j)

rebuild_replicas-Rebuilds :
    (p : PartitionId) (replicas : Map InstanceId State) (built : ReplicaStates)
    → IsSorted replicas
    → All (λ e. get_state built p e.0 ≡ none) replicas
    → (built' : ReplicaStates) × (rebuild_replicas p replicas built ≡ ok built')
      × Rebuilds p replicas built built'
unfolding rebuild_replicas get
rebuild_replicas-Rebuilds p [] built sorted fresh = (built, refl, λ q j. ground arith)
rebuild_replicas-Rebuilds p ((i, s) ∷ rest) built sorted fresh =
    let (stored, is_ok, stores) = set_state-Stores built p i s fresh.0 in
    let (built', rest_ok, rebuilds) =
      rebuild_replicas-Rebuilds p rest stored sorted.1
        (fresh_after built p i s stored stores rest sorted.0 fresh.1) in
    (
      built',
      rw is_ok rest_ok,
      λ q j.
          rebuilds q j ∙ rw (stores q j) (ground (arith, eqb-cases i j, get_below rest i sorted.0)),
    )

rebuild_fresh :
    (p : PartitionId) (replicas : Map InstanceId State) (built built' : ReplicaStates)
    → Rebuilds p replicas built built'
    → (rest : ReplicaStates) → All (λ e. string_ord.cmp p e.0 ≡ lt) rest
    → All (λ e. (j : InstanceId) → get_state built e.0 j ≡ none) rest
    → All (λ e. (j : InstanceId) → get_state built' e.0 j ≡ none) rest
rebuild_fresh p replicas built built' rebuilds [] above fresh = tt
rebuild_fresh p replicas built built' rebuilds ((q, entries) ∷ rest) above fresh = (
  λ j. rebuilds q j ∙ rw (eqb_of_lt p q above.0) (fresh.0 j),
  rebuild_fresh p replicas built built' rebuilds rest above.1 fresh.1,
)

rebuild_partitions_exact :
    (all built : ReplicaStates)
    → AllSorted all
    → All (λ e. (j : InstanceId) → get_state built e.0 j ≡ none) all
    → (built' : ReplicaStates) × (rebuild_partitions all built ≡ ok built')
      × ((q : PartitionId) (j : InstanceId)
          → get_state built' q j ≡ or_else (get_state all q j) (get_state built q j))
unfolding rebuild_partitions
rebuild_partitions_exact [] built sorted fresh = (built, refl, λ q j. rw (absent_nil q j) refl)
rebuild_partitions_exact ((p, replicas) ∷ rest) built sorted fresh =
    let (stored, is_ok, rebuilds) =
      rebuild_replicas-Rebuilds p replicas built sorted.1.0
        (All-of_In _ replicas (λ e i. fresh.0 e.0)) in
    let (built', rest_ok, exact_rest) =
      rebuild_partitions_exact rest stored (sorted.0.1, sorted.1.1)
        (rebuild_fresh p replicas built stored rebuilds rest sorted.0.0 fresh.1) in
    (
      built',
      rw is_ok rest_ok,
      λ q j.
          exact_rest q j
          ∙ rw (rebuilds q j, get_state-head p replicas rest q j)
              (ground (arith, eqb-cases p q, absent_below p rest sorted.0.0 j)),
    )

module _ (configs : Map InstanceId String) (live : List InstanceId) where
  -- Every state that is shown is that of a configured, live replica.
  abbrev pub ShowsLive : CurrentState → Type 0
  ShowsLive states =
      (p : PartitionId) (i : InstanceId) (s : State)
      → get_state states p i ≡ some s
      → Shown configs live i

  good_shown : (states : ReplicaStates) → GoodStates configs live states → ShowsLive states
  unfolding get_state
  good_shown states h p i s shown = elim (Option-cases (get states p)) [
    | inl e ↦ absurd (cc (rw e at shown))
    | inr (replicas, e) ↦
        (let good = In-All (λ x. GoodReplicas configs live x.1) (get-In states p replicas e) h.1 in
          In-All (λ x. Shown configs live x.0) (get-In replicas i s (rw e at shown)) good.1)
  ]

  rebuild_resources-ShowsLive :
      (rs : Map ResourceId ReplicaStates)
      → All (λ e. GoodStates configs live e.1) rs
      → (out : Map ResourceId CurrentState) × (rebuild_resources rs ≡ ok out)
        × All (λ e. ShowsLive e.1) out
  unfolding rebuild_resources
  rebuild_resources-ShowsLive [] h = ([], refl, tt)
  rebuild_resources-ShowsLive ((r, entries) ∷ rs) (good, goods) =
      let sorted : All (λ e. IsSorted e.1) entries =
        All-imp {P = λ e. GoodReplicas configs live e.1} (λ e g. g.0) entries good.1 in
      let (current, is_ok, same) =
        rebuild_partitions_exact entries [] (good.0, sorted)
          (All-of_In _ entries (λ e i j. absent_nil e.0 j)) in
      let (out, rest_ok, shows) = rebuild_resources-ShowsLive rs goods in
      (
        (r, current) ∷ out,
        rw (is_ok, rest_ok) refl,
        (
          λ p i s shown.
              good_shown entries good p i s
                (or_none (get_state entries p i) ∙ rw (← absent_nil p i) (sym (same p i) ∙ shown)),
          shows,
        ),
      )
    where
      or_none : (o : Option State) → o ≡ or_else o none
      or_none none = refl
      or_none (some s) = refl

-- Whatever the participants have recorded, no expectation of `active_current_state` fails, and it
-- shows states of configured, live replicas only.
pub active-ShowsLive :
    (active : Map InstanceId ActiveCurrentState) (configs : Map InstanceId String)
    (live : List InstanceId)
    → (out : Map ResourceId CurrentState) × (active_current_state active configs live ≡ ok out)
      × All (λ e. ShowsLive configs live e.1) out
unfolding active_current_state
active-ShowsLive active configs live =
    rebuild_resources-ShowsLive configs live (gather_instances configs live active [])
      (gather_instances-Good configs live active [] tt)
