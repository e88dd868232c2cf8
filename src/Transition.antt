-- ===== src/Transition.antt =====
-- src/transition: requests for a state transition, transitions in flight, and the wire message.
use clustodian.Model.Identity.{InstanceId, PartitionId, ResourceId}
use clustodian.Model.State.{State}
use clustodian.Base.Logic.{ℕ, String}
use clustodian.Base.Ord.{string_ord, nat_ord, pair_ord}

pub record TransitionRequest : Type 0 where
  pub resource : ResourceId
  pub partition : PartitionId
  pub replica : InstanceId
  pub source_state : State
  pub target_state : State

pub record PendingTransition : Type 0 where
  pub partition : PartitionId
  pub replica : InstanceId
  pub source_state : State
  pub target_state : State

pub record TransitionMessage : Type 0 where
  pub message_id : String
  pub resource : String
  pub partition : String
  pub replica : String
  pub target_session : ℕ
  pub from : String
  pub to : String
  pub message_type : String
