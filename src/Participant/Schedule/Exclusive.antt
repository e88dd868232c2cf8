-- ===== src/Participant/Schedule/Exclusive.antt =====
-- What the loop of `process_messages` in src/participant.rs runs, beside what is in flight.
use clustodian.Participant.Schedule.{
  Scheduling, execution_key, schedule_new, schedule_one, schedule_all, schedule,
}
use clustodian.Transition.{TransitionMessage}
use clustodian.Model.Identity.{InstanceId, is_empty_text}
use clustodian.Base.Logic.{
  Bool-cases, Option-cases, String, ◌≡◌, refl, ap, ◌∙◌, inl, inr, false, not, ◌||◌, none, some,
  List, ◌∷◌, ◌++◌, map, arith, [], sym, ◌⊎◌,
}
use clustodian.Base.Lists.{All, All-append, All-imp, contains, Distinct}
use clustodian.Base.Map.{Map, get, insert, get-insert, get-insert_self}
use clustodian.Base.Ord.{eqb, eqb-cases, string_ord, nat_ord, pair_ord}

abbrev pub execution_keys : List (TransitionMessage × String) → List String
execution_keys = map λ p. p.1

-- Nothing in flight is lost or replaced, what is scheduled took a free key of its own and holds it,
-- and what is observed is in flight.
abbrev pub Exclusive : Map String String → Scheduling → Type 0
Exclusive before s =
    ((k : String) → (get before k ≡ none) ⊎ (get s.in_flight k ≡ get before k))
    × All
        (λ (p : TransitionMessage × String).
          (p.1 ≡ execution_key p.0)
          × (get before p.1 ≡ none)
          × (get s.in_flight p.1 ≡ some p.0.message_id))
        s.scheduled
    × Distinct (execution_keys s.scheduled)
    × All (λ id. (k : String) × (get s.in_flight k ≡ some id)) s.observed_ids

contains-snoc :
    (xs : List (TransitionMessage × String)) (p : TransitionMessage × String) (k : String)
    → contains (execution_keys (xs ++ p ∷ [])) k ≡ (contains (execution_keys xs) k || eqb p.1 k)
unfolding contains
contains-snoc [] p k = ground arith
contains-snoc (x ∷ xs) p k = ground (arith, contains-snoc xs p k)

snoc-Distinct :
    (xs : List (TransitionMessage × String)) (p : TransitionMessage × String)
    → All (λ q. eqb p.1 q.1 ≡ false) xs
    → Distinct (execution_keys xs)
    → Distinct (execution_keys (xs ++ p ∷ []))
snoc-Distinct [] p h d = (unfold contains in refl, tt)
snoc-Distinct (x ∷ xs) p h d =
    (contains-snoc xs p x.1 ∙ rw (d.0, h.0) refl, snoc-Distinct xs p h.1 d.1)

-- A key that is there stays as it is when a free one is taken.
get-insert_free :
    (m : Map String String) (k v j w : String)
    → get m k ≡ none
    → get m j ≡ some w
    → get (insert m k v) j ≡ some w
get-insert_free m k v j w free there_it = elim (eqb-cases k j) [
  | inl (_, p) ↦ absurd (let e = ap (get m) p in cc)
  | inr (e, _) ↦ get-insert m k v j ∙ rw e there_it
]

free_apart :
    (m : Map String String) (k j w : String) → get m k ≡ none → get m j ≡ some w → eqb k j ≡ false
free_apart m k j w free there_it = elim (eqb-cases k j) [
  | inl (_, p) ↦ absurd (let e = ap (get m) p in cc)
  | inr (e, _) ↦ e
]

none_before :
    (before : Map String String) (s : Scheduling) (k : String)
    → Exclusive before s
    → get s.in_flight k ≡ none
    → get before k ≡ none
none_before before s k h free = elim (Option-cases (get before k)) [
  | inl e ↦ e
  | inr (id, e) ↦ absurd (elim (h.0 k) [ inl n ↦ cc | inr same ↦ cc ])
]

-- What was in flight stays so when a free key is taken.
kept_before :
    (before : Map String String) (s : Scheduling) (k v j : String)
    → Exclusive before s
    → get s.in_flight k ≡ none
    → (get before j ≡ none) ⊎ (get (insert s.in_flight k v) j ≡ get before j)
kept_before before s k v j h free = elim (Option-cases (get before j)) [
  | inl e ↦ inl e
  | inr (w, e) ↦ elim (h.0 j) [
    | inl n ↦ inl n
    | inr same ↦ inr (get-insert_free s.in_flight k v j w free (same ∙ e) ∙ sym e)
  ]
]

schedule_new-Exclusive :
    (before : Map String String) (s : Scheduling) (message : TransitionMessage)
    → get s.in_flight (execution_key message) ≡ none
    → Exclusive before s
    → Exclusive before (schedule_new s message)
unfolding schedule_new
schedule_new-Exclusive before s message free h =
    let k = execution_key message in
    let id = message.message_id in
    let taken = get-insert_self s.in_flight k id in
    (
      λ j. kept_before before s k id j h free,
      All-append _ s.scheduled _
          (All-imp (λ p q. (q.0, q.1, get-insert_free s.in_flight k id p.1 p.0.message_id free q.2))
            s.scheduled h.1)
          ((refl, none_before before s k h free, taken), tt),
      snoc-Distinct s.scheduled (message, k)
          (All-imp (λ p q. free_apart s.in_flight k p.1 p.0.message_id free q.2) s.scheduled h.1)
          h.2,
      All-append _ s.observed_ids _
          (All-imp (λ w q. (q.0, get-insert_free s.in_flight k id q.0 w free q.1)) s.observed_ids
            h.3)
          ((k, taken), tt),
    )

schedule_one-Exclusive :
    (instance_id : InstanceId) (before : Map String String) (s : Scheduling)
    (message : TransitionMessage)
    → Exclusive before s
    → Exclusive before (schedule_one instance_id s message)
unfolding schedule_one get
schedule_one-Exclusive instance_id before s message h =
    elim (Bool-cases (not (eqb message.replica instance_id) || is_empty_text message.message_id)) [
      | inl e ↦ rw (schedule_one, e) h
      | inr e ↦ elim (Option-cases (get s.in_flight (execution_key message))) [
        | inl free ↦ rw (schedule_one, e, free) (schedule_new-Exclusive before s message free h)
        | inr (existing, f) ↦ elim (eqb-cases existing message.message_id) [
          | inl (g, same) ↦
              rw (schedule_one, e, f, g)
                (
                  h.0,
                  h.1,
                  h.2,
                  All-append _ s.observed_ids _ h.3 ((execution_key message, f ∙ ap some same), tt),
                )
          | inr (g, _) ↦ rw (schedule_one, e, f, g) h
        ]
      ]
    ]

schedule_all-Exclusive :
    (instance_id : InstanceId) (before : Map String String) (messages : List TransitionMessage)
    (s : Scheduling)
    → Exclusive before s
    → Exclusive before (schedule_all instance_id messages s)
unfolding schedule_all
schedule_all-Exclusive instance_id before [] s h = h
schedule_all-Exclusive instance_id before (message ∷ messages) s h =
    schedule_all-Exclusive instance_id before messages (schedule_one instance_id s message)
      (schedule_one-Exclusive instance_id before s message h)

-- The loop keeps what is in flight, schedules only messages whose execution key was free, each
-- with a key of its own that it holds from then on, and observes only messages in flight.
pub schedule-Exclusive :
    (instance_id : InstanceId) (messages : List TransitionMessage) (before : Map String String)
    → Exclusive before (schedule instance_id messages before)
unfolding schedule
schedule-Exclusive instance_id messages before =
    schedule_all-Exclusive instance_id before messages _ (λ k. inr refl, tt, tt, tt)
