-- ===== src/Tests/Cycles.antt =====
-- A controller cycle over a snapshot with one resource, and a limit from the application to the
-- controller. The decoders answer for the one text that is stored under each key.
use clustodian.Controller.Throttle.Quota.{quota_exhausted}
use clustodian.Base.Loop.{for_range}
use clustodian.Model.StateModel.Table.{build_transition_table}
use clustodian.Model.State.{is_dropped}
use clustodian.Model.Identity.{InstanceId, PartitionId, ResourceId}
use clustodian.Model.Replica.{CurrentState, get_state}
use clustodian.Model.Session.{LiveInstance, ActiveCurrentState}
use clustodian.Model.Ideal.{IdealState}
use clustodian.Rebalance.Topology.{CrushTopology, CrushInstance, CrushError, no_instances}
use clustodian.Controller.Throttle.{StateTransitionThrottleConfig, rebalance_ord, new_config}
use clustodian.Controller.Throttle.Limits.{last_limit, limits_cluster}
use clustodian.Controller.Runtime.{
  CoordinationSnapshot, PublishedTransition, normal, Json, ResourceRecord, ThrottleRecord,
  MetadataEntry, metadata_value,
}
use clustodian.Controller.Runtime.Limits.{throttles}
use clustodian.Controller.Runtime.Current.{normalize_current, active_current_state}
use clustodian.Controller.Runtime.Current.Normalized.{AllSorted, or_else}
use clustodian.Controller.Runtime.Current.Started.{normalize_exact}
use clustodian.Controller.Runtime.Outputs.{compute_outputs_with_pending_policy, throttles_for}
use clustodian.Controller.Runtime.Outputs.Fenced.{
  Fenced, OnePerReplica, outputs-Fenced, outputs-OnePerReplica,
}
use clustodian.Controller.Runtime.Outputs.Bounded.{is_added, outputs_bounded}
use clustodian.Admin.{
  TransitionLimitRecord, TransitionLimit, TransitionLimitSpec, cluster_limit, lower_all,
  limit_records, resource_spec, load_transition, cluster_target, any_rebalance, limit_resource,
  load_rebalance,
}
use clustodian.Admin.Limits.{configured, limits_roundtrip, read_as}
use clustodian.Tests.Models.{standby_model}
use clustodian.Base.Logic.{
  ℕ, Result, ok, err, String, ◌≡◌, refl, none, some, List, ◌∷◌, [], if◌then◌else◌, unwrap_or, ◌≤◌,
  map, arith,
}
use clustodian.Base.Map.{Map, get}
use clustodian.Base.Ord.{string_ord, nat_ord, pair_ord, eqb}
use clustodian.Base.Lists.{count, All, contains, Distinct}
use clustodian.Controller.Runtime.Current.Active.{ShowsLive, active-ShowsLive}

abbrev entry : String → MetadataEntry
entry value = record { value = some value; revision = 1 }

abbrev stored : Map String MetadataEntry
stored =
    ("controller/instance-configs", entry "configs")
    ∷ ("controller/resources/orders", entry "orders")
    ∷ ("controller/throttles", entry "throttles")
    ∷ []

abbrev limit_record : ThrottleRecord
limit_record = record {
  scope = "CLUSTER";
  resource = none;
  replica = none;
  rebalance_type = "ANY";
  max_in_flight = 1;
}

abbrev orders_record : ResourceRecord
orders_record = record {
  name = "orders";
  state_model = "LeaderStandby";
  placement = record {
    kind = "SEMI_AUTO";
    replicas = 2;
    preference_lists = ("p0", "n1" ∷ "n2" ∷ []) ∷ [];
    partitions = [];
    topology = none;
  };
}

abbrev json : Json
json = record {
  decode_instance_configs =
      λ text. ok (record { name = "n1"; zone = "a" } ∷ record { name = "n2"; zone = "b" } ∷ []);
  decode_resource = λ text. ok orders_record;
  decode_throttles = λ text. ok (limit_record ∷ []);
  decode_pending = λ text. ok [];
}

abbrev no_crush :
    ResourceId
    → List PartitionId
    → ℕ
    → List CrushInstance
    → List InstanceId
    → CrushTopology
    → Result CrushError (Map PartitionId (List InstanceId))
no_crush resource partitions replicas instances live topology = err no_instances

abbrev active_under : ℕ → ActiveCurrentState
active_under session = record { session_id = session; resources = [] }

abbrev live_under : InstanceId → ℕ → LiveInstance
live_under i session = record { instance_id = i; session_id = session }

abbrev seen_now : CoordinationSnapshot
seen_now = record {
  revision = 12;
  authoritative_revision = 12;
  metadata = stored;
  participants = record {
    live_instances = ("n1", live_under "n1" 7) ∷ ("n2", live_under "n2" 8) ∷ [];
    active_current_state = ("n1", active_under 7) ∷ ("n2", active_under 8) ∷ [];
  };
}

-- Both replicas want to join, and the limit lets one of them.
abbrev published : PublishedTransition
published = record {
  resource = "orders";
  partition = "p0";
  replica = "n1";
  target_session = 7;
  from = "OFFLINE";
  to = "STANDBY";
  message_type = "STATE_TRANSITION";
  message_id = "m10:12:0";
}

cycle :
    compute_outputs_with_pending_policy json no_crush standby_model seen_now [] normal
    ≡ ok ([], published ∷ [])
unfolding compute_outputs_with_pending_policy standby_model pair_ord is_dropped
    build_transition_table for_range nat_ord quota_exhausted rebalance_ord
cycle = refl

outputs-Fenced_example : All (Fenced seen_now) (published ∷ [])
outputs-Fenced_example = outputs-Fenced json no_crush standby_model seen_now [] normal cycle

none_before : OnePerReplica []
unfolding count
none_before = λ x. omega arith

outputs-OnePerReplica_example : OnePerReplica (published ∷ [])
outputs-OnePerReplica_example =
    outputs-OnePerReplica json no_crush standby_model seen_now [] normal cycle none_before

abbrev read_limits : List StateTransitionThrottleConfig
read_limits = configured (cluster_limit 1) ∷ []

limits_read : throttles_for json seen_now normal ≡ ok read_limits
unfolding throttles_for cluster_limit
limits_read = refl

limit_is : last_limit limits_cluster read_limits none ≡ some 1
unfolding cluster_limit new_config
limit_is = refl

outputs_bounded_example : count (is_added []) (published ∷ []) ≤ 1
outputs_bounded_example =
    outputs_bounded json no_crush standby_model seen_now [] normal 1 cycle limits_read limit_is

-- A recorded leader that is live, one that is not, and a live instance without a state.
abbrev recorded : CurrentState
recorded = ("p0", ("n1", "LEADER") ∷ ("n3", "STANDBY") ∷ []) ∷ []

abbrev placed : IdealState
placed = record {
  resource = "orders";
  replicas = 2;
  preference_lists = ("p0", "n1" ∷ "n2" ∷ []) ∷ [];
}

recorded_sorted : AllSorted recorded
unfolding string_ord
recorded_sorted = ((tt, tt), (((refl, tt), (tt, tt)), tt))

placed_distinct : All (λ (e : PartitionId × List InstanceId). Distinct e.1) placed.preference_lists
unfolding contains eqb string_ord
placed_distinct = ((refl, (refl, tt)), tt)

normalize_exact_example :
    (planned : CurrentState) × (normalize_current recorded placed ("n1" ∷ "n2" ∷ []) standby_model
      ≡ ok planned)
    × ((p : PartitionId) (i : InstanceId)
        → get_state planned p i ≡ (
            if contains ("n1" ∷ "n2" ∷ []) i
            then or_else (get_state recorded p i) (
                if contains (unwrap_or (get placed.preference_lists p) []) i
                then some standby_model.initial_state
                else none)
            else none))
normalize_exact_example =
    normalize_exact recorded placed ("n1" ∷ "n2" ∷ []) standby_model recorded_sorted (tt, tt)
      placed_distinct

-- A limit on the cluster and one on load balancing of a resource, set and read.
abbrev limits : List TransitionLimit
limits =
    cluster_limit 3
    ∷ record {
      target = resource_spec "orders";
      transition_type = load_transition;
      max_in_flight = 2;
    }
    ∷ []

abbrev lowered : List TransitionLimitSpec
lowered =
    record { target = cluster_target; rebalance_type = any_rebalance; max_in_flight = 3 }
    ∷ record {
      target = limit_resource "orders";
      rebalance_type = load_rebalance;
      max_in_flight = 2;
    }
    ∷ []

abbrev written : List TransitionLimitRecord
written =
    record {
      scope = "CLUSTER";
      resource = none;
      replica = none;
      rebalance_type = "ANY";
      max_in_flight = 3;
    }
    ∷ record {
      scope = "RESOURCE";
      resource = some "orders";
      replica = none;
      rebalance_type = "LOAD_BALANCE";
      max_in_flight = 2;
    }
    ∷ []

abbrev reading : Json
reading = record json { decode_throttles = λ text. ok (map read_as written) }

limits_lowered : lower_all limits ≡ ok lowered
unfolding lower_all cluster_limit
limits_lowered = refl

limits_written : limit_records lowered ≡ some written
unfolding limit_records
limits_written = refl

limits_stored : metadata_value seen_now "controller/throttles" ≡ some "throttles"
unfolding metadata_value eqb string_ord
limits_stored = refl

limits_roundtrip_example : throttles reading seen_now ≡ ok (map configured limits)
limits_roundtrip_example =
    limits_roundtrip reading seen_now limits "throttles" limits_lowered limits_written limits_stored
      refl

abbrev session_seven : ActiveCurrentState
session_seven = record { session_id = 7; resources = ("orders", recorded) ∷ [] }

active-ShowsLive_example :
    (out : Map ResourceId CurrentState) × (active_current_state
        (("n1", session_seven) ∷ [])
        (("n1", "a") ∷ [])
        ("n1" ∷ [])
      ≡ ok out)
    × All (λ (e : ResourceId × CurrentState). ShowsLive (("n1", "a") ∷ []) ("n1" ∷ []) e.1) out
active-ShowsLive_example =
    active-ShowsLive (("n1", session_seven) ∷ []) (("n1", "a") ∷ []) ("n1" ∷ [])
