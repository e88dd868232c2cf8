-- ===== src/Model/StateModel/Routes.antt =====
-- What `next_state_toward` promises of a definition that `build` publishes.
use clustodian.Model.StateModel.Positions.{Steps-Reaches}
use clustodian.Model.StateModel.Chains.{known_distance}
use clustodian.Model.StateModel.Published.{published_hop}
use clustodian.Model.StateModel.Shortest.{EdgeAt}
use clustodian.Model.StateModel.Positions.{edge_small, Reaches-Steps, index_of_known, index_of_inj}
use clustodian.Base.Logic.{
  ℕ, suc, ◌≤◌, ◌≡◌, refl, sym, ◌∙◌, ◌≢◌, inl, inr, true, none, some, List, arith, Option-cases, ap,
  ok,
}
use clustodian.Base.Lists.{length, In, contains, In-All}
use clustodian.Base.Ord.{eqb-cases, string_ord, nat_ord, pair_ord}
use clustodian.Model.StateModel.{StateModelDefinition, next_state_toward, StateModelBuilder, build}
use clustodian.Model.State.{State, Transition}
use clustodian.Model.StateModel.WellFormed.{WellFormed, build-WellFormed}
use clustodian.Model.StateModel.Table.{Tables, index_of, shortest_paths}
use clustodian.Model.StateModel.Shortest.{AfterRounds, finished}
use clustodian.Model.StateModel.Positions.{Reaches, index_of_known}
use clustodian.Model.StateModel.Published.{name_at, cell}
use clustodian.Model.StateModel.Chains.{chain, Chain, arrived, hop}

some-injective : {x y : State} → some x ≡ some y → x ≡ y
some-injective h = cc

-- The hops that `next_state_toward` answers on the way to `goal`, `d` in all, each of them along
-- a declared transition.
pub data Follows (m : StateModelDefinition) (goal : State) : State → ℕ → Type 0 where
  arrived_at : {a : State} → a ≡ goal → Follows m goal a 0
  follow :
      {a c : State} {d : ℕ}
      → a ≢ goal
      → next_state_toward m a goal ≡ some c
      → (t : Transition) × In t m.transitions_by_priority × (t.source ≡ a) × (t.target ≡ c)
      → Follows m goal c d
      → Follows m goal a (suc d)

module _ (m : StateModelDefinition) (well : WellFormed m)
    (small : length m.states_by_priority ≤ 62) where
  abbrev states : List State
  states = m.states_by_priority

  abbrev declared : List Transition
  declared = m.transitions_by_priority

  tables : Tables
  tables = shortest_paths states declared

  rounds : AfterRounds states declared (length states) (length states) tables
  unfolding tables
  rounds = finished states declared small

  -- The published hop is the tables' hop between the two positions.
  next_at :
      (a goal : State)
      → contains states a ≡ true
      → contains states goal ≡ true
      → a ≢ goal
      → next_state_toward m a goal
        ≡ cell states (tables.next (index_of states a) (index_of states goal)) none
  unfolding next_state_toward tables
  next_at a goal ha hg ne = rw well.table (
      published_hop states declared well.distinct (index_of states a) (index_of states goal) a goal
        (index_of_known states a ha).0 (index_of_known states goal hg).0
        (λ e. ne (index_of_inj states a goal ha hg e)))

  name_of : (s : State) → contains states s ≡ true → name_at states (index_of states s) ≡ s
  name_of s h = rw (index_of_known states s h).0 refl

  joined :
      (t : Transition)
      → In t declared
      → (contains states t.source ≡ true) × (contains states t.target ≡ true)
  joined t i =
      In-All (λ t. (contains states t.source ≡ true) × (contains states t.target ≡ true)) i
        well.known

  Chain-Follows :
      (goal a : State) {i d : ℕ}
      → contains states goal ≡ true
      → contains states a ≡ true
      → i ≡ index_of states a
      → Chain (EdgeAt states declared) tables (index_of states goal) i d
      → Follows m goal a d
  Chain-Follows goal a hg ha e (arrived p) =
      arrived_at (index_of_inj states a goal ha hg (sym e ∙ p))
  Chain-Follows goal a hg ha e (hop {i} {h} n q (t, there_it, p, p') c) =
      let k = joined t there_it in
      let ne : a ≢ goal = λ same. n (e ∙ ap (index_of states) same) in
      let answer : next_state_toward m a goal ≡ some t.target =
        next_at a goal ha hg ne ∙ rw (← e, q) (ap some (rw (← p') (name_of t.target k.1))) in
      follow ne answer (t, there_it, index_of_inj states t.source a k.0 ha (p ∙ e), refl)
        (Chain-Follows goal t.target hg k.1 (sym p') c)

  Reaches-Follows :
      (a goal : State) (w : ℕ)
      → contains states a ≡ true
      → contains states goal ≡ true
      → Reaches declared goal a w
      → (d : ℕ) × Follows m goal a d × (d ≤ w)
  Reaches-Follows a goal w ha hg r = elim (eqb-cases a goal) [
    | inl (e, p) ↦ (0, arrived_at p, omega arith)
    | inr (e, n) ↦
        let (d, c, le) =
          chain states declared tables rounds (edge_small states declared well.known) w
            (index_of states a) (index_of states goal) w (omega arith)
            (index_of_known states a ha).1 (index_of_known states goal hg).1
            (λ e. n (index_of_inj states a goal ha hg e)) (Reaches-Steps states declared r) in
        (d, Chain-Follows goal a hg ha refl c, le)
  ]

  -- A hop that is answered is declared and begins a path to the goal that is a shortest one.
  hop_shortest :
      (a goal c : State)
      → contains states a ≡ true
      → contains states goal ≡ true
      → a ≢ goal
      → next_state_toward m a goal ≡ some c
      → (t : Transition) × (d : ℕ) × In t declared
        × (t.source ≡ a)
        × (t.target ≡ c)
        × Reaches declared goal c d
        × ((w : ℕ) → Reaches declared goal a w → suc d ≤ w)
  hop_shortest a goal c ha hg ne e =
      let i = index_of states a in
      let j = index_of states goal in
      let apart : i ≢ j = λ same. ne (index_of_inj states a goal ha hg same) in
      let at = sym (next_at a goal ha hg ne) ∙ e in
      elim (Option-cases (tables.distances i j)) [
        | inl unknown ↦ let none_it = rounds.linked i j unknown in absurd (ground arith)
        | inr (dist, known_it) ↦ elim (rounds.sound i j dist known_it) [
          | inl (same, z) ↦ absurd (apart same)
          | inr (h, rest, n, (t, there_it, p, p'), q, z) ↦
              let k = joined t there_it in
              let hop_name : c ≡ t.target =
                let at' = rw n at at in
                let named = name_of t.target k.1 in
                let named' = rw p' at named in sym (some-injective at') ∙ named' in
              (
                t,
                rest,
                there_it,
                index_of_inj states t.source a k.0 ha p,
                sym hop_name,
                rw hop_name
                    (Steps-Reaches states declared well.known goal t.target k.1 hg (sym p') q),
                λ w r.
                    let near =
                      known_distance states declared tables rounds
                        (edge_small states declared well.known) i j w (index_of_known states a ha).1
                        (index_of_known states goal hg).1 apart (Reaches-Steps states declared r) in
                    (let near2 = rw known_it at near in omega arith),
              )
        ]
      ]

-- From each state of a definition that `build` publishes with at most 62 states, if declared
-- transitions lead to another state of it in `w` steps, then following `next_state_toward` arrives
-- there along declared transitions, in at most `w` steps.
pub next_hops_reach :
    (b : StateModelBuilder) (a goal : State) (w : ℕ) {m : StateModelDefinition}
    → build b ≡ ok m
    → length m.states_by_priority ≤ 62
    → contains m.states_by_priority a ≡ true
    → contains m.states_by_priority goal ≡ true
    → Reaches m.transitions_by_priority goal a w
    → (d : ℕ) × Follows m goal a d × (d ≤ w)
next_hops_reach b a goal w {m} h small ha hg r =
    Reaches-Follows m (build-WellFormed b h) small a goal w ha hg r

-- In a definition that `build` publishes with at most 62 states, a hop that `next_state_toward`
-- answers between two different states of it is a declared transition, from whose target the goal
-- is reached, and no path of declared transitions to the goal is shorter than the one it begins.
pub next_hop_shortest :
    (b : StateModelBuilder) (a goal c : State) {m : StateModelDefinition}
    → build b ≡ ok m
    → length m.states_by_priority ≤ 62
    → contains m.states_by_priority a ≡ true
    → contains m.states_by_priority goal ≡ true
    → a ≢ goal
    → next_state_toward m a goal ≡ some c
    → (t : Transition) × (d : ℕ) × In t m.transitions_by_priority
      × (t.source ≡ a)
      × (t.target ≡ c)
      × Reaches m.transitions_by_priority goal c d
      × ((w : ℕ) → Reaches m.transitions_by_priority goal a w → suc d ≤ w)
next_hop_shortest b a goal c {m} h small ha hg ne e =
    hop_shortest m (build-WellFormed b h) small a goal c ha hg ne e
