-- ===== src/Admin/Limits.antt =====
-- A limit that the application sets is the limit that the controller reads.
use clustodian.Model.Identity.{new_resource, new_instance, validate, is_empty_text}
use clustodian.Admin.{
  TransitionLimitSpec, TransitionRebalanceType, cluster_target, limit_resource, limit_instance,
  type_name, any_rebalance, recovery_rebalance, load_rebalance, TransitionLimit, rebalance_of,
  TransitionType, target_of, scope_of, any_transition, cluster_spec, resource_spec,
  recovery_transition, instance_spec, load_transition, TransitionLimitTargetSpec,
  TransitionLimitTarget, into_low_level, record_of, lower_all, limit_records, TransitionLimitRecord,
}
use clustodian.Controller.Throttle.{
  RebalanceType, any_balance, recovery_balance, load_balance, StateTransitionThrottleConfig,
  cluster_scope, new_config, for_resource, for_instance,
}
use clustodian.Controller.Runtime.Limits.{
  parse_rebalance_type, parse_scope, read_target, read_throttle, throttles, read_throttles,
}
use clustodian.Base.Logic.{
  ok, ◌≡◌, refl, Bool-cases, ◌>>=◌, ok-injective, ℕ, inl, inr, ◌==◌, >>=-eq-ok, String, some, List,
  ◌∷◌, map, [],
}
use clustodian.Base.Ord.{eqb, string_ord, nat_ord, pair_ord}
use clustodian.Base.Lists.{any}
use clustodian.Controller.Runtime.{ThrottleRecord, Json, CoordinationSnapshot, metadata_value}

-- What a limit means to the throttling stage.
abbrev pub class_of : TransitionRebalanceType → RebalanceType
class_of any_rebalance = any_balance
class_of recovery_rebalance = recovery_balance
class_of load_rebalance = load_balance

abbrev pub meant : TransitionLimitSpec → StateTransitionThrottleConfig
meant limit = elim limit.target [
  | cluster_target ↦ new_config (class_of limit.rebalance_type) cluster_scope limit.max_in_flight
  | limit_resource r ↦ for_resource (class_of limit.rebalance_type) r limit.max_in_flight
  | limit_instance i ↦ for_instance (class_of limit.rebalance_type) i limit.max_in_flight
]

parse-type_name :
    (ty : TransitionRebalanceType) → parse_rebalance_type (type_name ty) ≡ ok (class_of ty)
unfolding parse_rebalance_type type_name eqb string_ord
parse-type_name any_rebalance = refl
parse-type_name recovery_rebalance = refl
parse-type_name load_rebalance = refl

-- What the application says with a limit.
abbrev pub facade_class : TransitionType → RebalanceType
facade_class any_transition = any_balance
facade_class recovery_transition = recovery_balance
facade_class load_transition = load_balance

abbrev pub configured : TransitionLimit → StateTransitionThrottleConfig
configured limit = elim limit.target [
  | cluster_spec ↦ new_config (facade_class limit.transition_type) cluster_scope limit.max_in_flight
  | resource_spec r ↦ for_resource (facade_class limit.transition_type) r limit.max_in_flight
  | instance_spec i ↦ for_instance (facade_class limit.transition_type) i limit.max_in_flight
]

class-rebalance_of : (ty : TransitionType) → class_of (rebalance_of ty) ≡ facade_class ty
unfolding rebalance_of
class-rebalance_of any_transition = refl
class-rebalance_of recovery_transition = refl
class-rebalance_of load_transition = refl

-- The serializer leaves an absent target out, and the deserializer reads a field that is left out as
-- absent, so every field of the one record is the field of that name of the other.
abbrev pub read_as : TransitionLimitRecord → ThrottleRecord
read_as written = record {
  scope = written.scope;
  resource = written.resource;
  replica = written.replica;
  rebalance_type = written.rebalance_type;
  max_in_flight = written.max_in_flight;
}

-- The scope and the targets that are written are read as the limit's.
read_target-scope_of :
    (target : TransitionLimitTargetSpec) (ty : RebalanceType) (n : ℕ) {low : TransitionLimitTarget}
    → target_of target ≡ ok low
    → (parse_scope (scope_of low).0 >>= λ scope.
        read_target scope ty n (scope_of low).1 (scope_of low).2)
      ≡ ok (elim target [
        | cluster_spec ↦ new_config ty cluster_scope n
        | resource_spec r ↦ for_resource ty r n
        | instance_spec i ↦ for_instance ty i n
      ])
unfolding target_of scope_of parse_scope read_target eqb string_ord new_resource new_instance
    validate
read_target-scope_of cluster_spec ty n h = rw (← ok-injective h) refl
read_target-scope_of (resource_spec r) ty n h = elim (Bool-cases (is_empty_text r)) [
  | inl e ↦ absurd (cc (rw e at h))
  | inr e ↦ rw (← ok-injective (rw e at h), new_resource, validate, e) refl
]
read_target-scope_of (instance_spec i) ty n h = elim (Bool-cases (is_empty_text i)) [
  | inl e ↦ absurd (cc (rw e at h))
  | inr e ↦ rw (← ok-injective (rw e at h), new_instance, validate, e) refl
]

read_throttle-read_as :
    (limit : TransitionLimit) {low : TransitionLimitSpec}
    → into_low_level limit ≡ ok low
    → read_throttle (read_as (record_of low)) ≡ ok (configured limit)
unfolding into_low_level read_throttle record_of
read_throttle-read_as limit {low} h = elim (Bool-cases (limit.max_in_flight == 0)) [
  | inl e ↦ absurd (cc (rw e at h))
  | inr e ↦
      (let (target, lowered, h1) = >>=-eq-ok (target_of limit.target) _ (rw e at h) in
        let read =
          read_target-scope_of limit.target (facade_class limit.transition_type) limit.max_in_flight
            lowered in
        rw
          (
            ← ok-injective h1,
            parse-type_name (rebalance_of limit.transition_type),
            class-rebalance_of limit.transition_type,
            e,
          )
          read)
]

read_all :
    (limits : List TransitionLimit) {specs : List TransitionLimitSpec}
    → lower_all limits ≡ ok specs
    → read_throttles (map read_as (map record_of specs)) ≡ ok (map configured limits)
unfolding lower_all read_throttles
read_all [] h = rw (← ok-injective h) refl
read_all (limit ∷ limits) h =
    let (low, lowered, h1) = >>=-eq-ok (into_low_level limit) _ h in
    let (lows, rest, h2) = >>=-eq-ok (lower_all limits) _ h1 in
    rw (← ok-injective h2, read_throttle-read_as limit lowered, read_all limits rest) refl

records_of_limits :
    (specs : List TransitionLimitSpec) {records : List TransitionLimitRecord}
    → limit_records specs ≡ some records
    → records ≡ map record_of specs
unfolding limit_records
records_of_limits specs h = elim (Bool-cases (any (λ l. l.max_in_flight == 0) specs)) [
  | inl e ↦ absurd (cc (rw e at h))
  | inr e ↦ cc (rw e at h)
]

-- The limits that an application sets are the throttle configurations that the controller reads:
-- where each limit is accepted and the records are written under the throttle key, and the decoder
-- reads records with the same fields from the text that is stored, each limit is read with its
-- class, its target and its number, in their order.
pub limits_roundtrip :
    (json : Json) (snapshot : CoordinationSnapshot) (limits : List TransitionLimit)
    {specs : List TransitionLimitSpec} {records : List TransitionLimitRecord} (text : String)
    → lower_all limits ≡ ok specs
    → limit_records specs ≡ some records
    → metadata_value snapshot "controller/throttles" ≡ some text
    → json.decode_throttles text ≡ ok (map read_as records)
    → throttles json snapshot ≡ ok (map configured limits)
unfolding throttles
limits_roundtrip json snapshot limits {specs} text lowered written stored decoded =
    rw (throttles, stored, decoded, records_of_limits specs written) (read_all limits lowered)
