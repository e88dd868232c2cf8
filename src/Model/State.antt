-- ===== src/Model/State.antt =====
-- src/model/state.rs: state names, transitions and the cardinality of a state. A `State` is its
-- exact name.
use Prim.Native.Char.{code}
use clustodian.Base.Logic.{
  ℕ, ◌+◌, ◌-◌, ◌*◌, ◌^◌, String, Bool, ◌&&◌, Option, none, some, Result, ok, err, leb, ◌==◌,
  if◌then◌else◌,
}
use clustodian.Base.Ord.{eqb, string_ord}
use clustodian.Model.Identity.{is_empty_text}

abbrev pub State : Type 0
State = String

pub data StateError : Type 0 where
  empty_name : StateError

unfoldable pub new_state : String → Result StateError State
unfolding is_empty_text
new_state name = if is_empty_text name then err empty_name else ok name

unfoldable pub is_leader : State → Bool
unfolding eqb string_ord
is_leader state = eqb state "LEADER"

unfoldable pub is_standby : State → Bool
unfolding eqb string_ord
is_standby state = eqb state "STANDBY"

unfoldable pub is_offline : State → Bool
unfolding eqb string_ord
is_offline state = eqb state "OFFLINE"

unfoldable pub is_dropped : State → Bool
unfolding eqb string_ord
is_dropped state = eqb state "DROPPED"

unfoldable pub is_error : State → Bool
unfolding eqb string_ord
is_error state = eqb state "ERROR"

pub record Transition : Type 0 where
  pub source : State
  pub target : State

pub data StateCardinality : Type 0 where
  exact : ℕ → StateCardinality
  replica_count : StateCardinality
  node_count : StateCardinality
  unbounded : StateCardinality

pub data StateCardinalityError : Type 0 where
  invalid_value : String → StateCardinalityError

-- The digits of `str::parse::<u32>`, after `acc`: an overflow or another character fails.
parse_digits : ℕ → String → Option ℕ
parse_digits acc String.[] = some acc
parse_digits acc (String.◌∷◌ c s) =
    let value = acc * 10 + (code c - b'0') in
    let rest = parse_digits value s in
    if leb b'0' (code c) && leb (code c) b'9' && leb value (2 ^ 32 - 1) then rest else none

-- `str::parse::<u32>`: at least one digit, behind one `+` at most.
parse_u32 : String → Option ℕ
unfolding parse_digits
parse_u32 String.[] = none
parse_u32 (String.◌∷◌ c String.[]) = parse_digits 0 (String.◌∷◌ c String.[])
parse_u32 (String.◌∷◌ c (String.◌∷◌ d s)) =
    if code c == b'+'
    then parse_digits 0 (String.◌∷◌ d s)
    else parse_digits 0 (String.◌∷◌ c (String.◌∷◌ d s))

-- `impl TryFrom<&str> for StateCardinality`.
unfoldable pub parse_cardinality : String → Result StateCardinalityError StateCardinality
unfolding parse_u32 eqb string_ord
parse_cardinality value =
    if eqb value "R"
    then ok replica_count
    else if eqb value "N"
    then ok node_count
    else if eqb value "-1"
    then ok unbounded
    else (elim (parse_u32 value) [ none ↦ err (invalid_value value) | some n ↦ ok (exact n) ])
