-- ===== src/Model/StateModel/Chains.antt =====
-- Following the next hops of finished tables ends at the goal, along a shortest path.
use clustodian.Model.State.{State, Transition}
use clustodian.Model.StateModel.Table.{Tables}
use clustodian.Model.StateModel.Round.{Within, Within-some}
use clustodian.Model.StateModel.Paths.{Steps, stay, go, Steps-Via}
use clustodian.Model.StateModel.Shortest.{EdgeAt, AfterRounds}
use clustodian.Base.Logic.{
  ℕ, suc, ◌≤◌, ◌<◌, ◌≡◌, ◌≢◌, inl, inr, some, List, zero, arith, ℕ_discrete,
}
use clustodian.Base.Lists.{length}
use clustodian.Base.Ord.{string_ord, nat_ord, pair_ord}

-- The hops toward `j` from `i`, one after the other, `d` in all.
pub data Chain (Edge : ℕ → ℕ → Type 0) (t : Tables) (j : ℕ) : ℕ → ℕ → Type 0 where
  arrived : {i : ℕ} → i ≡ j → Chain Edge t j i 0
  hop :
      {i h d : ℕ}
      → i ≢ j
      → t.next i j ≡ some h
      → Edge i h
      → Chain Edge t j h d
      → Chain Edge t j i (suc d)

module _ (states : List State) (transitions : List Transition) (t : Tables)
    (finished : AfterRounds states transitions (length states) (length states) t)
    (small : (x y : ℕ)
      → EdgeAt states transitions x y
      → (x < length states) × (y < length states)) where
  abbrev Edge : ℕ → ℕ → Type 0
  Edge = EdgeAt states transitions

  pub known_distance :
      (i j w : ℕ)
      → i < length states
      → j < length states
      → i ≢ j
      → Steps Edge j i w
      → Within (t.distances i j) w
  known_distance i j w lti ltj ne (stay e) = absurd (ne e)
  known_distance i j w lti ltj ne (go {d} e p) =
      finished.done i j (suc d) lti ltj
        (Steps-Via Edge (length states) (λ x y f. (small x y f).0) e p)

  -- The hop of two different states that are joined, and the path that is left.
  first_hop :
      (i j w : ℕ)
      → i < length states
      → j < length states
      → i ≢ j
      → Steps Edge j i w
      → (h : ℕ) × (rest : ℕ) × (t.next i j ≡ some h)
        × Edge i h
        × Steps Edge j h rest
        × (suc rest ≤ w)
  first_hop i j w lti ltj ne p =
      let (d, e, le) = Within-some (t.distances i j) w (known_distance i j w lti ltj ne p) in
      elim (finished.sound i j d e) [
        | inl (same, z) ↦ absurd (ne same)
        | inr (h, rest, n, f, q, z) ↦ (h, rest, n, f, q, omega arith)
      ]

  pub chain :
      (fuel i j w : ℕ)
      → w ≤ fuel
      → i < length states
      → j < length states
      → i ≢ j
      → Steps Edge j i w
      → (d : ℕ) × Chain Edge t j i d × (d ≤ w)
  chain zero i j w le lti ltj ne p =
      let (h, rest, n, f, q, k) = first_hop i j w lti ltj ne p in absurd (omega arith)
  chain (suc fuel) i j w le lti ltj ne p =
      let (h, rest, n, f, q, k) = first_hop i j w lti ltj ne p in
      elim (ℕ_discrete h j) [
        | yes same ↦ (1, hop ne n f (arrived same), omega arith)
        | no other ↦
            let (d, c, l) = chain fuel h j rest (omega arith) (small i h f).1 ltj other q in
            (suc d, hop ne n f c, omega arith)
      ]
