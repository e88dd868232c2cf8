-- ===== src/Model/StateModel/Table.antt =====
-- `build_transition_table` of src/model/state_model.rs: the ordered Floyd-Warshall construction of
-- the next hops. A matrix `vec![vec![..; n]; n]` is a function of its two indices, which stay
-- below `n` in every loop.
use clustodian.Base.Loop.{for_range}
use clustodian.Base.Logic.{
  List, ℕ, some, Option, unwrap_or, [], ◌∷◌, if◌then◌else◌, ltb, ◌==◌, ◌+◌, ◌&&◌, none, usize_max,
}
use clustodian.Model.State.{State, Transition}
use clustodian.Base.Map.{Map, insert}
use clustodian.Base.Lists.{position, length, get_elem?}
use clustodian.Base.Ord.{eqb, string_ord, nat_ord, pair_ord}

abbrev pub Matrix : Type 0
Matrix = ℕ → ℕ → Option ℕ

-- `matrix[from][to] = value`.
unfoldable pub write : Matrix → ℕ → ℕ → Option ℕ → Matrix
write matrix from to value i j = if i == from && j == to then value else matrix i j

pub record Tables : Type 0 where
  pub distances : Matrix
  pub next : Matrix

-- `indexes[state]`: `build` passes distinct states, and transitions between these alone.
unfoldable pub index_of : List State → State → ℕ
index_of states state = unwrap_or (position (λ s. eqb s state) states) 0

-- The first loop: every state reaches itself.
unfoldable pub set_diagonal : ℕ → Tables → Tables
unfolding write
set_diagonal i t = record {
  distances = write t.distances i i (some 0);
  next = write t.next i i (some i);
}

-- The second loop: a declared transition is one hop.
unfoldable pub set_edge : List State → Tables → Transition → Tables
unfolding index_of write
set_edge states t transition =
    let from = index_of states transition.source in
    let to = index_of states transition.target in
    record { distances = write t.distances from to (some 1); next = write t.next from to (some to) }

unfoldable pub set_edges : List State → Tables → List Transition → Tables
unfolding set_edge
set_edges states t [] = t
set_edges states t (transition ∷ rest) = set_edges states (set_edge states t transition) rest

-- The body of the three nested loops. The comparison is strict, so a path that is there stays.
unfoldable pub relax : ℕ → ℕ → ℕ → Tables → Tables
unfolding write
relax intermediate from to t = elim (t.distances from intermediate) [
  | none ↦ t
  | some left ↦ elim (t.distances intermediate to) [
    | none ↦ t
    | some right ↦
        if ltb (left + right) (unwrap_or (t.distances from to) usize_max)
        then record {
          distances = write t.distances from to (some (left + right));
          next = write t.next from to (t.next from intermediate);
        }
        else t
  ]
]

unfoldable pub relax_row : ℕ → ℕ → ℕ → Tables → Tables
unfolding relax
relax_row n intermediate from t = for_range n 0 (relax intermediate from) t

unfoldable pub relax_round : ℕ → ℕ → Tables → Tables
unfolding relax_row
relax_round n intermediate t = for_range n 0 (relax_row n intermediate) t

-- Both matrices after every loop.
unfoldable pub shortest_paths : List State → List Transition → Tables
unfolding set_diagonal set_edges relax_round
shortest_paths states transitions =
    let n = length states in
    let empty : Tables = record { distances = λ i j. none; next = λ i j. none } in
    for_range n 0 (relax_round n) (set_edges states (for_range n 0 set_diagonal empty) transitions)

-- One cell of the published map: the hop toward another state that is reached.
unfoldable pub put_hop : List State → ℕ → ℕ → State → Option ℕ → Map State State → Map State State
put_hop states from to s none targets = targets
put_hop states from to s (some hop) targets =
    if from == to then targets else insert targets s (unwrap_or (get_elem? states hop) "")

-- One row of the published map.
unfoldable pub row_targets :
    List State → (ℕ → Option ℕ) → ℕ → ℕ → List State → Map State State → Map State State
unfolding put_hop
row_targets states row from to [] targets = targets
row_targets states row from to (s ∷ rest) targets =
    row_targets states row from (to + 1) rest (put_hop states from to s (row to) targets)

unfoldable pub publish_rows :
    List State → Matrix → ℕ → List State → Map State (Map State State) → Map State (Map State State)
unfolding row_targets
publish_rows states next from [] table = table
publish_rows states next from (s ∷ rest) table =
    publish_rows states next (from + 1) rest
      (insert table s (row_targets states (next from) from 0 states []))

unfoldable pub build_transition_table : List State → List Transition → Map State (Map State State)
unfolding shortest_paths publish_rows
build_transition_table states transitions =
    publish_rows states (shortest_paths states transitions).next 0 states []
