-- ===== src/Lib.antt =====
-- Verification of the deterministic core of clustodian: the cluster model, and the controller's
-- pipeline from an ideal placement to the transitions that it may dispatch.
--
-- The program. A state model (src/model/state_model.rs) names the states that a replica can be in,
-- how many replicas may be in each, and the transitions between them; its builder computes a table
-- of next hops. An ideal state places partitions on instances. The rebalancer
-- (src/rebalance/semi_auto.rs) turns it into the best possible state for the live instances; the
-- controller compares that with the current states that participants publish under their sessions
-- (src/model/session.rs), generates one transition per replica that is not where it should be
-- (src/controller/message_generation.rs), and selects those that keep every state within its bound
-- (src/controller/message_selection.rs). The throttling stage (src/controller/message_throttle.rs)
-- dispatches those that the quotas of the cluster, the resource and the instance leave room for
-- beside the transitions in flight. A controller cycle (src/controller/runtime.rs) composes these
-- over a snapshot of the store and publishes the next messages. A participant carries them out in any order, and records how far it
-- has worked through the revisions of its queue (src/participant.rs). Clients route over the
-- external view (src/routing/snapshot.rs).
--
-- The files. Base holds what the parts share: results and their binds, orders, lists, and maps and
-- sets as association lists and lists that are kept in the order of their keys, as BTreeMap and
-- BTreeSet are. Model/Identity, Model/State, Model/StateModel (with Table for the next-hop table),
-- Model/Builtins, Model/Replica, Model/Ideal and Model/Session model the files of src/model with
-- the same names; Model/Replica also models the maps that wrap replica states, in
-- current_state.rs, best_possible_state.rs, external_view.rs and
-- src/controller/intermediate_state.rs. Transition models src/transition; Controller/Generation,
-- Controller/Selection, Controller/Throttle, Controller/Runtime, Rebalance/SemiAuto and Routing
-- model the files named above, and Participant the completion frontier and the scheduling of
-- messages of its file. The modules below a component's own hold the rest of it, its lemmas and its
-- theorems, named for what they hold or prove. Tests holds runs
-- at concrete inputs.
--
-- How code corresponds. A function keeps its name; a loop with a mutable variable is a function
-- that carries it; a method on &mut self returns the new value, in a result where it can fail. An
-- identifier or a state is its text, and a session id its u64 number, with the overflow check of
-- `checked_add` written out. Hash maps of the source are read by key only. The two matrices of the
-- next-hop table are functions of two positions, written cell by cell in the source's loop order.
-- All loops are structural, or count to a bound that is known; there is no fuel in a definition.
-- The table's theorems assume at most 62 states: each round of the three loops at most doubles a
-- recorded distance, so with that many none reaches usize::MAX.
--
-- JSON is decoded by another library: a cycle takes the decoders as the record Json of
-- Controller/Runtime, and a theorem that needs one to give back what was encoded has that as a
-- hypothesis. The hash-based placement is a parameter of a cycle too; only its topology, leaves and
-- errors are modelled, in Rebalance/Topology. An error that the source keeps as text is kept as the
-- error that the text is made from, and the panic of an `expect` is an error of its own. Admin models
-- the transition limits of src/cluster.rs and src/admin.rs. A number is written in decimal by
-- Base/Decimal with at most 20 digits, which every u64 fits.
--
-- Sorting is stable insertion (Base/Sort), as `sort_by` is where the comparison is a total order. The
-- order of messages is one on target states of the model; among messages to different states outside
-- it, which compare as equal, the standard library promises no order and may panic, and neither is
-- modelled.
--
-- Not modelled: the asynchronous runtimes, the execution of messages by the participant, leader
-- election, the etcd client with its sessions and watches, the rest of the administration, and
-- observation, which are calls of services and timers for the most part; the search of the
-- hash-based placement, whose straw lengths are f32 computations; the chaos and conformance tools,
-- which are tests.
pub mod Base
pub mod Model
pub mod Transition
pub mod Controller
pub mod Admin
pub mod Rebalance
pub mod Routing
pub mod Participant
pub mod Tests
