-- ===== src/Controller/Throttle/Gauges.antt =====
-- src/controller/message_throttle.rs: the quotas of the three scopes.
use clustodian.Model.Identity.{InstanceId, ResourceId}
use clustodian.Controller.Throttle.{
  RebalanceType, any_balance, recovery_balance, load_balance, rebalance_ord,
}
use clustodian.Controller.Throttle.Quota.{
  Quotas, charge, charge_quota, should_throttle, quota_exhausted, exhausted, is_zero,
}
use clustodian.Controller.Throttle.Gauge.{Gauge}
use clustodian.Base.Logic.{
  ℕ, if◌then◌else◌, and_then, map_option, ◌-◌, ◌≡◌, true, Option, some, refl, ◌∙◌, inl, inr, arith,
  ap, Bool, false, none, ◌||◌,
}
use clustodian.Base.Map.{Map, get, modify, get-modify}
use clustodian.Base.Ord.{eqb, string_ord, nat_ord, pair_ord, eqb-cases, eq_of_eqb}

-- The quota on work of any class.
abbrev pub any_quota : Quotas → Option ℕ
any_quota quotas = get quotas any_balance

abbrev pub any_quota_at : Map ResourceId Quotas → ResourceId → Option ℕ
any_quota_at m k = and_then (get m k) any_quota

pub any_quota-charge_quota :
    (ty : RebalanceType) (quotas : Quotas)
    → any_quota (charge_quota ty quotas) ≡ map_option (λ n. n - 1) (any_quota quotas)
unfolding charge_quota eqb rebalance_ord
any_quota-charge_quota any_balance quotas = get-modify _ quotas any_balance any_balance
any_quota-charge_quota recovery_balance quotas =
    get-modify _ (modify _ quotas any_balance) recovery_balance any_balance
    ∙ get-modify _ quotas any_balance any_balance
any_quota-charge_quota load_balance quotas =
    get-modify _ (modify _ quotas any_balance) load_balance any_balance
    ∙ get-modify _ quotas any_balance any_balance

any_quota-charged :
    (ty : RebalanceType) (o : Option Quotas)
    → and_then (map_option (charge_quota ty) o) any_quota
      ≡ map_option (λ n. n - 1) (and_then o any_quota)
any_quota-charged ty none = refl
any_quota-charged ty (some quotas) = any_quota-charge_quota ty quotas

pub any_quota_at-charge :
    (ty : RebalanceType) (m : Map ResourceId Quotas) (k j : ResourceId)
    → any_quota_at (modify (charge_quota ty) m j) k
      ≡ (if eqb j k then map_option (λ n. n - 1) (any_quota_at m k) else any_quota_at m k)
any_quota_at-charge ty m k j = elim (eqb-cases j k) [
  | inl (e, p) ↦ rw (get-modify (charge_quota ty) m j k, e) (any_quota-charged ty (get m k))
  | inr (e, n) ↦ rw (get-modify (charge_quota ty) m j k, e) refl
]

pub exhausted_any :
    (ty : RebalanceType) (m : Map ResourceId Quotas) (k : ResourceId)
    → any_quota_at m k ≡ some 0
    → exhausted ty (get m k) ≡ true
unfolding exhausted quota_exhausted is_zero
exhausted_any ty m k h = ground arith

unfoldable pub cluster_gauge : Gauge
unfolding should_throttle quota_exhausted is_zero charge
cluster_gauge = record {
  read = λ c. any_quota c.cluster;
  counts = λ r i. true;
  blocks = λ c ty r i empty counted. rw (should_throttle, quota_exhausted, empty, is_zero) refl;
  drops = λ c ty r i n left. any_quota-charge_quota ty c.cluster ∙ rw left refl;
}

pub drop_one :
    (b : Bool) (o : Option ℕ) (n : ℕ)
    → o ≡ some n
    → (if b then map_option (λ k. k - 1) o else o) ≡ some (n - (if b then 1 else 0))
drop_one true o n h = rw h refl
drop_one false o n h = h ∙ ap some (omega arith)

pub or-middle : (a b : Bool) → (a || true || b) ≡ true
or-middle true b = refl
or-middle false b = refl

pub or-last : (a b : Bool) → (a || b || true) ≡ true
or-last true b = refl
or-last false true = refl
or-last false false = refl

unfoldable pub resource_gauge : ResourceId → Gauge
unfolding should_throttle charge
resource_gauge k = record {
  read = λ c. any_quota_at c.resources k;
  counts = λ r i. eqb r k;
  blocks = λ c ty r i empty own.
      rw (should_throttle, eq_of_eqb r k own, exhausted_any ty c.resources k empty)
        (or-middle (quota_exhausted c.cluster ty) _);
  drops = λ c ty r i n left. any_quota_at-charge ty c.resources k r ∙ drop_one (eqb r k) _ n left;
}

unfoldable pub instance_gauge : InstanceId → Gauge
unfolding should_throttle charge
instance_gauge k = record {
  read = λ c. any_quota_at c.instances k;
  counts = λ r i. eqb i k;
  blocks = λ c ty r i empty own.
      rw (should_throttle, eq_of_eqb i k own, exhausted_any ty c.instances k empty)
        (or-last (quota_exhausted c.cluster ty) _);
  drops = λ c ty r i n left. any_quota_at-charge ty c.instances k i ∙ drop_one (eqb i k) _ n left;
}
