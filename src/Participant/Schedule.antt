-- ===== src/Participant/Schedule.antt =====
-- src/participant.rs: the loop of `process_messages` that chooses which messages to run. One
-- message is in flight for a partition of a resource, under the execution key of the two.
pub mod Exclusive
use Prim.Native.String.{◌++◌ as append}
use clustodian.Transition.{TransitionMessage}
use clustodian.Model.Identity.{InstanceId, is_empty_text}
use clustodian.Base.Logic.{if◌then◌else◌, String, not, ◌||◌, none, some, List, ◌∷◌, ◌++◌, []}
use clustodian.Base.Map.{Map, get, insert}
use clustodian.Base.Ord.{eqb, string_ord, nat_ord, pair_ord}

unfoldable pub execution_key : TransitionMessage → String
execution_key message = append message.resource (append "/" message.partition)

-- The map behind the lock, and what the loop collects.
pub record Scheduling : Type 0 where
  pub in_flight : Map String String
  pub observed_ids : List String
  pub scheduled : List (TransitionMessage × String)

unfoldable pub schedule_new : Scheduling → TransitionMessage → Scheduling
unfolding insert execution_key
schedule_new s message = record {
  in_flight = insert s.in_flight (execution_key message) message.message_id;
  observed_ids = s.observed_ids ++ message.message_id ∷ [];
  scheduled = s.scheduled ++ (message, execution_key message) ∷ [];
}

unfoldable pub schedule_one : InstanceId → Scheduling → TransitionMessage → Scheduling
unfolding get execution_key schedule_new eqb is_empty_text
schedule_one instance_id s message =
    if not (eqb message.replica instance_id) || is_empty_text message.message_id
    then s
    else elim (get s.in_flight (execution_key message)) [
      | some existing ↦
          if eqb existing message.message_id
          then record s { observed_ids = s.observed_ids ++ message.message_id ∷ [] }
          else s
      | none ↦ schedule_new s message
    ]

unfoldable pub schedule_all : InstanceId → List TransitionMessage → Scheduling → Scheduling
unfolding schedule_one
schedule_all instance_id [] s = s
schedule_all instance_id (message ∷ messages) s =
    schedule_all instance_id messages (schedule_one instance_id s message)

-- The loop over the messages of the queue.
unfoldable pub schedule : InstanceId → List TransitionMessage → Map String String → Scheduling
unfolding schedule_all
schedule instance_id messages in_flight =
    schedule_all instance_id messages
      (record { in_flight = in_flight; observed_ids = []; scheduled = [] })
