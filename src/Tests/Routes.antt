-- ===== src/Tests/Routes.antt =====
-- Routing over a view with one leader.
use clustodian.Routing.Leaders.{Ordered, Answer, advertises, leader_exact, replicas_exact}
use clustodian.Routing.{RoutingSnapshot, leader, replicas}
use clustodian.Model.Identity.{InstanceId, is_empty_text}
use clustodian.Base.Lists.{contains, Distinct}
use clustodian.Base.Set.{add}
use clustodian.Base.Map.{get}
use clustodian.Base.Ord.{eqb, nat_ord, string_ord, pair_ord}
use clustodian.Base.Logic.{List, some, ◌≡◌, refl, [], ◌∷◌, ok, ◌||◌, false}

abbrev one_leader : RoutingSnapshot
one_leader = record {
  external_view =
      ("orders", ("p0", ("n1", "LEADER") ∷ ("n2", "STANDBY") ∷ ("n3", "STANDBY") ∷ []) ∷ []) ∷ [];
  configured_instances = "n1" ∷ "n2" ∷ [];
}

one_leader-Ordered : Ordered one_leader.external_view
unfolding string_ord
one_leader-Ordered = ((((refl, (refl, tt)), ((refl, tt), (tt, tt))), tt), tt)

named_resource : is_empty_text "orders" ≡ false
unfolding is_empty_text
named_resource = refl

named_partition : is_empty_text "p0" ≡ false
unfolding is_empty_text
named_partition = refl

found : leader one_leader "orders" "p0" ≡ ok (some "n1")
unfolding leader get eqb string_ord contains add is_empty_text
found = refl

leader_exact_example : Answer one_leader "orders" "p0" (leader one_leader "orders" "p0")
leader_exact_example =
    leader_exact one_leader "orders" "p0" one_leader-Ordered named_resource named_partition

replicas_exact_example :
    (found : List InstanceId) × (replicas one_leader "orders" "p0" ≡ ok found)
    × Distinct found
    × ((i : InstanceId)
        → contains found i ≡ (
            advertises one_leader "orders" "p0" "LEADER" i
            || advertises one_leader "orders" "p0" "STANDBY" i))
replicas_exact_example =
    replicas_exact one_leader "orders" "p0" one_leader-Ordered named_resource named_partition
