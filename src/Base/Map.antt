-- ===== src/Base/Map.antt =====
-- `BTreeMap`: the pairs in the order of their keys. Iteration is the list itself; `insert`
-- replaces the value of a key that is there, and `remove` takes a key out.
use Prim.Native.Nat.Ordering.{lt, eq, gt}
use clustodian.Base.Logic.{
  ◌≡◌, refl, ◌∙◌, ◌≢◌, inl, inr, Bool, Option, none, some, List, [], ◌∷◌, map, arith, if◌then◌else◌,
  is_some, unwrap_or, ◌++◌, map_option,
}
use clustodian.Base.Ord.{Ord, eqb, eqb_refl, eqb-cases, order_cases, eqb_of_lt, eqb-sym}
use clustodian.Base.Lists.{In, All, here, In-All, there, All-imp, contains, Distinct}

abbrev pub Map {ℓ κ} : Type ℓ → Type κ → Type (ℓ ⊔ κ)
Map K V = List (K × V)

abbrev pub keys {ℓ κ} : {K : Type ℓ} {V : Type κ} → Map K V → List K
keys = map λ p. p.0

abbrev pub values {ℓ κ} : {K : Type ℓ} {V : Type κ} → Map K V → List V
values = map λ p. p.1

module _ {ℓ κ} {K : Type ℓ} {V : Type κ} ⦃o : Ord K⦄ where
  unfoldable pub get : Map K V → K → Option V
  get [] k = none
  get ((j, v) ∷ m) k = if eqb j k then some v else get m k

  unfoldable pub insert : Map K V → K → V → Map K V
  insert [] k v = (k, v) ∷ []
  insert ((j, w) ∷ m) k v = elim (o.cmp k j) [
    | lt ↦ (k, v) ∷ (j, w) ∷ m
    | eq ↦ (k, v) ∷ m
    | gt ↦ (j, w) ∷ insert m k v
  ]

  pub remove : Map K V → K → Map K V
  remove [] k = []
  remove ((j, v) ∷ m) k = if eqb j k then remove m k else (j, v) ∷ remove m k

  unfoldable pub contains_key : Map K V → K → Bool
  unfolding get
  contains_key m k = is_some (get m k)

  pub get-insert :
      (m : Map K V) (k : K) (v : V) (j : K)
      → get (insert m k v) j ≡ (if eqb k j then some v else get m j)
  unfolding get insert eqb
  get-insert [] k v j = refl
  get-insert ((i, w) ∷ m) k v j = ground (
    arith,
    get-insert m k v j,
    o.only_self k i,
    o.only_self i j,
    o.only_self k j,
    o.self_eq k,
    o.swaps k i,
  )

  pub get-insert_self : (m : Map K V) (k : K) (v : V) → get (insert m k v) k ≡ some v
  get-insert_self m k v = get-insert m k v k ∙ rw (eqb_refl k) refl

  pub get-insert_ne : (m : Map K V) (k : K) (v : V) (j : K) → k ≢ j → get (insert m k v) j ≡ get m j
  get-insert_ne m k v j n = elim (eqb-cases k j) [
    | inl (_, p) ↦ absurd (n p)
    | inr (e, _) ↦ get-insert m k v j ∙ rw e refl
  ]

  pub get-remove :
      (m : Map K V) (k j : K) → get (remove m k) j ≡ (if eqb k j then none else get m j)
  unfolding get remove
  get-remove [] k j = elim (eqb-cases k j) [ inl (e, _) ↦ rw e refl | inr (e, _) ↦ rw e refl ]
  get-remove ((i, w) ∷ m) k j = elim (eqb-cases i k) [
    | inl (e, p) ↦ rw (e, p) (get-remove m k j ∙ ground arith)
    | inr (e, n) ↦ elim (eqb-cases i j) [
      | inl (f, p) ↦ ground (arith, eqb-cases k j)
      | inr (f, _) ↦ ground (arith, get-remove m k j)
    ]
  ]

module _ {ℓ κ} {K : Type ℓ} {V : Type κ} ⦃o : Ord K⦄ where
  -- `entry(k).or_default().push(v)`, on a map of vectors.
  unfoldable pub push_at : Map K (List V) → K → V → Map K (List V)
  unfolding get insert
  push_at m k v = insert m k (unwrap_or (get m k) [] ++ v ∷ [])

  pub get-push_at :
      (m : Map K (List V)) (k : K) (v : V) (j : K)
      → get (push_at m k v) j
        ≡ (if eqb k j then some (unwrap_or (get m k) [] ++ v ∷ []) else get m j)
  unfolding push_at
  get-push_at m k v j = get-insert m k _ j

  pub get-In : (m : Map K V) (k : K) (v : V) → get m k ≡ some v → In (k, v) m
  unfolding get
  get-In [] k v h = absurd cc
  get-In ((j, w) ∷ m) k v h = elim (eqb-cases j k) [
    | inl (e, p) ↦ here (ground arith)
    | inr (e, _) ↦ there (get-In m k v (ground arith))
  ]

  -- The keys rise along the list, as in every map that is built by `insert`.
  abbrev pub IsSorted : Map K V → Type (ℓ ⊔ κ)
  IsSorted [] = Unit
  IsSorted ((k, v) ∷ m) = All (λ p. o.cmp k p.0 ≡ lt) m × IsSorted m

  In-above :
      (k : K) (m : Map K V) {p : K × V} → All (λ q. o.cmp k q.0 ≡ lt) m → In p m → o.cmp k p.0 ≡ lt
  In-above k m h i = In-All (λ q. o.cmp k q.0 ≡ lt) i h

  pub In-get : {k : K} {v : V} {m : Map K V} → IsSorted m → In (k, v) m → get m k ≡ some v
  unfolding get
  In-get {k} {v} h (here {y} {ys} e) = ground (arith, eqb_refl k)
  In-get {k} {v} h (there {y} {ys} i) = rw (eqb_of_lt y.0 k (In-above y.0 ys h.0 i)) (In-get h.1 i)

  insert-above :
      (j : K) (m : Map K V) (k : K) (v : V)
      → o.cmp j k ≡ lt
      → All (λ q. o.cmp j q.0 ≡ lt) m
      → All (λ q. o.cmp j q.0 ≡ lt) (insert m k v)
  unfolding insert
  insert-above j [] k v h a = (h, tt)
  insert-above j (p ∷ m) k v h a = ground (arith, insert-above j m k v h)

  pub insert-IsSorted : (m : Map K V) (k : K) (v : V) → IsSorted m → IsSorted (insert m k v)
  unfolding insert
  insert-IsSorted [] k v h = (tt, tt)
  insert-IsSorted ((j, w) ∷ m) k v h = elim (order_cases k j) [
    | inl e ↦ rw (e, insert) ((e, All-imp (λ q c. o.chains k j q.0 e c) m h.0), (h.0, h.1))
    | inr (inl (e, p)) ↦ rw (e, insert) (rw p (h.0, h.1))
    | inr (inr (e, f)) ↦ rw (e, insert) (insert-above j m k v f h.0, insert-IsSorted m k v h.1)
  ]

module _ {ℓ κ} {K : Type ℓ} {V : Type κ} ⦃o : Ord K⦄ where
  remove-All {μ} : (P : K × V → Type μ) (m : Map K V) (k : K) → All P m → All P (remove m k)
  unfolding remove
  remove-All P [] k h = tt
  remove-All P ((j, w) ∷ m) k h = elim (eqb-cases j k) [
    | inl (e, _) ↦ rw (remove, e) (remove-All P m k h.1)
    | inr (e, _) ↦ rw (remove, e) (h.0, remove-All P m k h.1)
  ]

  pub remove-IsSorted : (m : Map K V) (k : K) → IsSorted m → IsSorted (remove m k)
  unfolding remove
  remove-IsSorted [] k h = tt
  remove-IsSorted ((j, w) ∷ m) k h = elim (eqb-cases j k) [
    | inl (e, _) ↦ rw (remove, e) (remove-IsSorted m k h.1)
    | inr (e, _) ↦
        rw (remove, e) (remove-All (λ q. o.cmp j q.0 ≡ lt) m k h.0, remove-IsSorted m k h.1)
  ]

module _ {ℓ κ} {K : Type ℓ} {V : Type κ} ⦃o : Ord K⦄ where
  -- A key below all the keys is not there.
  pub get_below : (m : Map K V) (k : K) → All (λ q. o.cmp k q.0 ≡ lt) m → get m k ≡ none
  unfolding get
  get_below [] k h = refl
  get_below ((j, w) ∷ m) k h = rw (eqb-sym j k, eqb_of_lt k j h.0) (get_below m k h.1)

  pub contains-keys : (m : Map K V) (k : K) → contains (keys m) k ≡ is_some (get m k)
  unfolding contains get
  contains-keys [] k = refl
  contains-keys ((j, w) ∷ m) k = ground (arith, contains-keys m k)

  pub keys-Distinct : (m : Map K V) → IsSorted m → Distinct (keys m)
  keys-Distinct [] h = tt
  keys-Distinct ((j, w) ∷ m) h =
      (contains-keys m j ∙ rw (get_below m j h.0) refl, keys-Distinct m h.1)

  pub insert-All {μ} :
      (P : K × V → Type μ) (m : Map K V) (k : K) (v : V) → P (k, v) → All P m → All P (insert m k v)
  unfolding insert
  insert-All P [] k v new_it h = (new_it, tt)
  insert-All P ((j, w) ∷ m) k v new_it h = elim (order_cases k j) [
    | inl e ↦ rw (insert, e) (new_it, h)
    | inr (inl (e, p)) ↦ rw (insert, e) (new_it, h.1)
    | inr (inr (e, f)) ↦ rw (insert, e) (h.0, insert-All P m k v new_it h.1)
  ]

module _ {ℓ κ} {K : Type ℓ} {V : Type κ} ⦃o : Ord K⦄ where
  -- `if let Some(v) = map.get_mut(k)`: the value that is there is changed in place.
  unfoldable pub modify : (V → V) → Map K V → K → Map K V
  modify f [] k = []
  modify f ((j, v) ∷ m) k = if eqb j k then (j, f v) ∷ m else (j, v) ∷ modify f m k

  -- `for v in map.values_mut()`.
  abbrev pub modify_all : (V → V) → Map K V → Map K V
  modify_all f [] = []
  modify_all f ((j, v) ∷ m) = (j, f v) ∷ modify_all f m

  pub get-modify :
      (f : V → V) (m : Map K V) (k j : K)
      → get (modify f m k) j ≡ (if eqb k j then map_option f (get m j) else get m j)
  unfolding modify get
  get-modify f [] k j = elim (eqb-cases k j) [ inl (e, _) ↦ rw e refl | inr (e, _) ↦ rw e refl ]
  get-modify f ((i, v) ∷ m) k j = elim (eqb-cases i k) [
    | inl (e, p) ↦ rw (e, modify, get) (ground (arith, eqb-cases i j, eqb-cases k j))
    | inr (e, n) ↦ elim (eqb-cases i j) [
      | inl (x, p) ↦ rw (e, modify, get) (ground (arith, eqb-cases k j))
      | inr (x, p) ↦ rw (e, modify, get, x) (get-modify f m k j)
    ]
  ]

  pub get-modify_all :
      (f : V → V) (m : Map K V) (j : K) → get (modify_all f m) j ≡ map_option f (get m j)
  unfolding get
  get-modify_all f [] j = refl
  get-modify_all f ((i, v) ∷ m) j = elim (eqb-cases i j) [
    | inl (x, p) ↦ rw x refl
    | inr (x, p) ↦ rw x (get-modify_all f m j)
  ]
