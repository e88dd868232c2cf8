-- ===== src/Model/Replica/Stores.antt =====
-- Reads of replica states: after a store, and against the entries of the map.
use Prim.Native.Nat.Ordering.{lt}
use clustodian.Base.Map.{
  Map, get, insert, get-insert, get-insert_self, get-insert_ne, keys, contains-keys, get_below,
}
use clustodian.Model.State.{State}
use clustodian.Model.Identity.{InstanceId, PartitionId}
use clustodian.Model.Replica.{ReplicaStates, get_state, insert_state}
use clustodian.Base.Logic.{
  Option, some, none, ◌≡◌, refl, [], ◌∷◌, unwrap_or, and_then, if◌then◌else◌, ◌∙◌, inl, inr, ◌&&◌,
  arith, false,
}
use clustodian.Base.Lists.{contains, All}
use clustodian.Base.Ord.{eqb, eqb_refl, eqb-cases, string_ord, nat_ord, pair_ord}

-- What a read finds after one replica was stored.
abbrev pub Stores : ReplicaStates → PartitionId → InstanceId → State → ReplicaStates → Type 0
Stores output p i s output' =
    (q : PartitionId) (j : InstanceId)
    → get_state output' q j ≡ (if eqb p q && eqb i j then some s else get_state output q j)

pub get_or_empty :
    (o : Option (Map InstanceId State)) (i : InstanceId)
    → get (unwrap_or o []) i ≡ and_then o (λ m. get m i)
unfolding get
get_or_empty none i = refl
get_or_empty (some m) i = refl

pub insert_state-Stores :
    (output : ReplicaStates) (p : PartitionId) (i : InstanceId) (s : State)
    → Stores output p i s (insert_state output p i s).0
unfolding insert_state get_state
insert_state-Stores output p i s q j = elim (eqb-cases p q) [
  | inl (e, same) ↦
      rw (← same, get-insert_self output p (insert (unwrap_or (get output p) []) i s), eqb_refl p)
        (get-insert (unwrap_or (get output p) []) i s j ∙ rw (get_or_empty (get output p) j) refl)
  | inr (e, other) ↦
      rw (e, get-insert_ne output p (insert (unwrap_or (get output p) []) i s) q other) refl
]

pub get_state-head :
    (p : PartitionId) (entries : Map InstanceId State) (rest : ReplicaStates) (q : PartitionId)
    (j : InstanceId)
    → get_state ((p, entries) ∷ rest) q j ≡ (if eqb p q then get entries j else get_state rest q j)
unfolding get_state get
get_state-head p entries rest q j = elim (eqb-cases p q) [
  | inl (e, same) ↦ rw e refl
  | inr (e, other) ↦ rw e refl
]

pub get_state_absent :
    (rest : ReplicaStates) (p : PartitionId) (j : InstanceId)
    → contains (keys rest) p ≡ false
    → get_state rest p j ≡ none
unfolding get_state
get_state_absent rest p j n = let m = contains-keys rest p in ground arith

pub absent_nil : (q : PartitionId) (j : InstanceId) → get_state [] q j ≡ none
unfolding get_state get
absent_nil q j = refl

-- A partition below all the entries has none.
pub absent_below :
    (p : PartitionId) (rest : ReplicaStates)
    → All (λ e. string_ord.cmp p e.0 ≡ lt) rest
    → (j : InstanceId) → get_state rest p j ≡ none
unfolding get_state
absent_below p rest h j = rw (get_below rest p h) refl
