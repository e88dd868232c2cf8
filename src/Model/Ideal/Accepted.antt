-- ===== src/Model/Ideal/Accepted.antt =====
-- What the builder of ideal states accepts.
use clustodian.Base.Set.{collect, collect-Distinct}
use clustodian.Base.Map.{Map, IsSorted, insert, insert-IsSorted, insert-All, contains_key}
use clustodian.Base.Lists.{length, All, Distinct, is_empty}
use clustodian.Model.Identity.{InstanceId, PartitionId, ResourceId}
use clustodian.Model.Ideal.{
  IdealStateBuilder, IdealState, IdealStateError, builder, set_preference_list, build,
  duplicate_partition, duplicate_preference_instance, no_partitions, preference_list_replica_count,
}
use clustodian.Base.Logic.{
  ℕ, List, Bool, ok, ◌≡◌, true, false, refl, arith, ◌∙◌, not, ◌==◌, fail_if, >>=-eq-ok,
  ok-injective,
}
use clustodian.Base.Ord.{string_ord, nat_ord, pair_ord}

-- The builders that calls which succeed lead to.
pub data Accepted (resource : ResourceId) (n : ℕ) : IdealStateBuilder → Type 0 where
  begun : {b : IdealStateBuilder} → builder resource n ≡ b → Accepted resource n b
  listed :
      {b b' : IdealStateBuilder} (p : PartitionId) (instances : List InstanceId)
      → Accepted resource n b
      → set_preference_list b p instances ≡ ok b'
      → Accepted resource n b'

-- The lists are in a map's order, and each names `n` instances, once each.
pub record Explicit (n : ℕ) (lists : Map PartitionId (List InstanceId)) : Type 0 where
  pub ordered : IsSorted lists
  pub full : All (λ e. Distinct e.1 × (length e.1 ≡ n)) lists

fail_if_ok :
    (test : Bool) (e : IdealStateError) {u : Unit {0}} → fail_if test e ≡ ok u → test ≡ false
fail_if_ok true e h = absurd cc
fail_if_ok false e h = refl

same_number : (a b : ℕ) → not (a == b) ≡ false → a ≡ b
same_number a b h = ground arith

set_preference_list-Explicit :
    (b : IdealStateBuilder) (p : PartitionId) (instances : List InstanceId) {b' : IdealStateBuilder}
    → set_preference_list b p instances ≡ ok b'
    → Explicit b.replicas b.preference_lists
    → (b'.replicas ≡ b.replicas) × Explicit b.replicas b'.preference_lists
unfolding set_preference_list
set_preference_list-Explicit b p instances {b'} h x =
    let (u1, e1, h1) =
      >>=-eq-ok (fail_if (contains_key b.preference_lists p) (duplicate_partition p)) _ h in
    let (u2, e2, h2) =
      >>=-eq-ok
        (fail_if (not (length instances == b.replicas))
          (preference_list_replica_count p b.replicas (length instances)))
        _ h1 in
    let (u3, e3, h3) =
      >>=-eq-ok
        (fail_if (not (length (collect instances) == length instances))
          (duplicate_preference_instance p))
        _ h2 in
    let size =
      same_number _ _
        (fail_if_ok _ (preference_list_replica_count p b.replicas (length instances)) e2) in
    let apart =
      collect-Distinct instances
        (same_number _ _ (fail_if_ok _ (duplicate_preference_instance p) e3)) in
    let made : record b { preference_lists = insert b.preference_lists p instances } ≡ b' =
      ok-injective h3 in
    rw (← made) (
      refl,
      record {
        ordered = insert-IsSorted b.preference_lists p instances x.ordered;
        full =
            insert-All (λ e. Distinct e.1 × (length e.1 ≡ b.replicas)) b.preference_lists p
              instances (apart, size) x.full;
      },
    )

Accepted-Explicit :
    {resource : ResourceId} {n : ℕ} {b : IdealStateBuilder}
    → Accepted resource n b
    → (b.replicas ≡ n) × Explicit n b.preference_lists
unfolding builder
Accepted-Explicit (begun e) = rw (← e) (refl, record { ordered = tt; full = tt })
Accepted-Explicit (listed {b} p instances a h) =
    let (same, x) = Accepted-Explicit a in
    let (kept, x') = set_preference_list-Explicit b p instances h (rw same x) in
    (kept ∙ same, rw same at x')

-- An ideal state that is built from accepted preference lists has at least one, in a map's order,
-- and each of them names as many instances as the ideal state has replicas, none of them twice.
pub build-Explicit :
    (resource : ResourceId) (n : ℕ) (b : IdealStateBuilder) {ideal : IdealState}
    → Accepted resource n b
    → build b ≡ ok ideal
    → (ideal.replicas ≡ n)
      × (is_empty ideal.preference_lists ≡ false)
      × Explicit n ideal.preference_lists
unfolding build
build-Explicit resource n b {ideal} a h =
    let (same, x) = Accepted-Explicit a in
    let (u, e, h1) = >>=-eq-ok (fail_if (is_empty b.preference_lists) no_partitions) _ h in
    let made = ok-injective h1 in rw (← made) (same, fail_if_ok _ no_partitions e, x)
