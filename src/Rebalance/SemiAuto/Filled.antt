-- ===== src/Rebalance/SemiAuto/Filled.antt =====
-- The loops over the states of one partition: they never fail, and count what they assign.
use clustodian.Base.Set.{add, contains-add}
use clustodian.Base.Lists.{count, contains, Distinct, All}
use clustodian.Base.Ord.{eqb, eqb-cases, string_ord, nat_ord, pair_ord}
use clustodian.Model.State.{State}
use clustodian.Model.Identity.{InstanceId, PartitionId}
use clustodian.Model.Replica.{ReplicaStates, get_state}
use clustodian.Rebalance.SemiAuto.Placement.{in_state, in_state-Stores}
use clustodian.Rebalance.SemiAuto.Put.{put_state-Stores}
use clustodian.Rebalance.SemiAuto.{Filling, Target, fill_state, propose, assign}
use clustodian.Rebalance.SemiAuto.Order.{next_unassigned, adjust_instance_if_necessary}
use clustodian.Base.Logic.{
  List, none, ◌≡◌, refl, [], ◌∷◌, ℕ, ◌+◌, ◌≤◌, arith, true, false, ok, zero, suc, Bool-cases, ◌&&◌,
  if◌then◌else◌, ◌∙◌, inl, inr, Bool,
}

module _ (p : PartitionId) (active : List InstanceId) (base : ReplicaStates) where
  abbrev pub Active : List InstanceId → Type 0
  Active = All (λ i. contains active i ≡ true)

  -- What holds of the loops' variables: only active instances are assigned or stand in the
  -- priority queue, an active one that is not assigned has no state, and no other state changed.
  pub record Placing (f : Filling) : Type 0 where
    pub inside : Active f.current_priority
    pub assigned_in : (i : InstanceId) → contains f.assigned i ≡ true → contains active i ≡ true
    pub free :
        (i : InstanceId)
        → contains active i ≡ true
        → contains f.assigned i ≡ false
        → get_state f.output p i ≡ none
    pub kept :
        (q : PartitionId) (j : InstanceId)
        → (eqb p q && contains active j) ≡ false
        → get_state f.output q j ≡ get_state base q j

  -- A choice of an active instance that is not assigned.
  abbrev Free : List InstanceId → InstanceId × List InstanceId → Type 0
  Free assigned c = (contains active c.0 ≡ true) × (contains assigned c.0 ≡ false) × Active c.1

  next_unassigned-Free :
      (proposed : InstanceId) (assigned list : List InstanceId)
      → contains active proposed ≡ true
      → contains assigned proposed ≡ false
      → Active list
      → Free assigned (next_unassigned proposed assigned list)
  unfolding next_unassigned
  next_unassigned-Free proposed assigned [] a n h = (a, n, tt)
  next_unassigned-Free proposed assigned (c ∷ rest) a n h =
      elim (Bool-cases (contains assigned c)) [
        | inl taken ↦
            rw (next_unassigned, taken) (next_unassigned-Free proposed assigned rest a n h.1)
        | inr open_it ↦ rw (next_unassigned, open_it) (h.0, open_it, h.1)
      ]

  propose-Free :
      (t : Target) (count : ℕ) (peek : InstanceId) (f : Filling)
      → Placing f
      → contains active peek ≡ true
      → contains f.assigned peek ≡ false
      → Free f.assigned (propose t count peek f)
  unfolding propose adjust_instance_if_necessary
  propose-Free t count peek f w a n = chosen _
    where
      chosen :
          (b : Bool)
          → Free f.assigned (
              if b
              then next_unassigned peek f.assigned f.current_priority
              else (peek, f.current_priority))
      chosen true = next_unassigned-Free peek f.assigned f.current_priority a n w.inside
      chosen false = (a, n, w.inside)

  -- One assignment.
  assign-Placing :
      (t : Target) (c : InstanceId × List InstanceId) (f : Filling)
      → t.partition ≡ p
      → Distinct active
      → Placing f
      → Free f.assigned c
      → (f' : Filling) × (assign t c f ≡ ok f')
        × Placing f'
        × ((s : State)
            → in_state f'.output p s active
              ≤ in_state f.output p s active + (if eqb t.requested s then 1 else 0))
  unfolding assign
  assign-Placing t c f here_it distinct w (a, n, rest) =
      let (output, e, stores) = put_state-Stores f.output p c.0 t.requested (w.free c.0 a n) in
      (
        record { current_priority = c.1; assigned = add f.assigned c.0; output = output },
        rw (assign, here_it, e) refl,
        record {
          inside = rest;
          assigned_in = λ i h.
              let h' = rw (contains-add f.assigned c.0 i) at h in
              elim (eqb-cases c.0 i) [
                | inl (_, same) ↦ rw (← same) a
                | inr (x, _) ↦ w.assigned_in i (ground arith)
              ];
          free = λ i ai h.
              let h' = rw (contains-add f.assigned c.0 i) at h in
              stores p i ∙ ground (arith, w.free i ai);
          kept = λ q j h. stores q j ∙ ground (arith, eqb-cases c.0 j, w.kept q j h);
        },
        λ s.
            in_state-Stores p c.0 t.requested f.output output stores s active distinct
              (w.free c.0 a n),
      )

  -- The loop over one state: it assigns the state `count` times at most.
  pub fill_state-Placing :
      (t : Target) (count : ℕ) (queue : List InstanceId) (f : Filling)
      → t.partition ≡ p
      → Distinct active
      → Placing f
      → Active queue
      → (r : List InstanceId × Filling) × (fill_state t count queue f ≡ ok r)
        × Placing r.1
        × Active r.0
        × ((s : State)
            → in_state r.1.output p s active
              ≤ in_state f.output p s active + (if eqb t.requested s then count else 0))
  unfolding fill_state
  fill_state-Placing t zero queue f here_it distinct w a =
      ((queue, f), refl, w, a, λ s. omega arith)
  fill_state-Placing t (suc count) [] f here_it distinct w a =
      (([], f), refl, w, tt, λ s. omega arith)
  fill_state-Placing t (suc count) (peek ∷ queue) f here_it distinct w a =
      elim (Bool-cases (contains f.assigned peek)) [
        | inl taken ↦
            let (r, e, w', a', bound) =
              fill_state-Placing t (suc count) queue f here_it distinct w a.1 in
            (r, rw (fill_state, taken) e, w', a', bound)
        | inr open_it ↦
            let choice = propose t (suc count) peek f in
            let (f', e, w', bound) =
              assign-Placing t choice f here_it distinct w
                (propose-Free t (suc count) peek f w a.0 open_it) in
            elim (Bool-cases (eqb choice.0 peek)) [
              | inl popped ↦
                  let (r, e', w'', a', bound') =
                    fill_state-Placing t count queue f' here_it distinct w' a.1 in
                  (
                    r,
                    rw (fill_state, open_it, e, popped) e',
                    w'',
                    a',
                    λ s. let x = bound s in let y = bound' s in ground arith,
                  )
              | inr stays ↦
                  let (r, e', w'', a', bound') =
                    fill_state-Placing t count (peek ∷ queue) f' here_it distinct w' a in
                  (
                    r,
                    rw (fill_state, open_it, e, stays) e',
                    w'',
                    a',
                    λ s. let x = bound s in let y = bound' s in ground arith,
                  )
            ]
      ]
