-- ===== src/Model/Identity.antt =====
-- src/model/identity.rs: validated identifiers. An `InstanceId`, `PartitionId` or `ResourceId` is
-- its exact text; its constructor refuses the empty text. A session id is a `u64` token.
use Prim.Native.String.{◌++◌ as append}
use clustodian.Base.Logic.{ℕ, String, Bool, true, false, Result, ok, err, if◌then◌else◌}

pub data IdentifierKind : Type 0 where
  instance_kind partition_kind resource_kind : IdentifierKind

pub data IdentifierError : Type 0 where
  empty : IdentifierKind → IdentifierError

-- `impl Display for IdentifierKind`.
kind_text : IdentifierKind → String
kind_text instance_kind = "instance"
kind_text partition_kind = "partition"
kind_text resource_kind = "resource"

-- `impl Display for IdentifierError`.
error_text : IdentifierError → String
unfolding kind_text
error_text (empty kind) = append (kind_text kind) " identifier must not be empty"

-- `str::is_empty`.
unfoldable pub is_empty_text : String → Bool
is_empty_text String.[] = true
is_empty_text (String.◌∷◌ c s) = false

unfoldable pub validate : IdentifierKind → String → Result IdentifierError String
unfolding is_empty_text
validate kind value = if is_empty_text value then err (empty kind) else ok value

abbrev pub InstanceId : Type 0
InstanceId = String

abbrev pub PartitionId : Type 0
PartitionId = String

abbrev pub ResourceId : Type 0
ResourceId = String

abbrev pub SessionId : Type 0
SessionId = ℕ

unfoldable pub new_instance : String → Result IdentifierError InstanceId
unfolding validate
new_instance value = validate instance_kind value

unfoldable pub new_partition : String → Result IdentifierError PartitionId
unfolding validate
new_partition value = validate partition_kind value

unfoldable pub new_resource : String → Result IdentifierError ResourceId
unfolding validate
new_resource value = validate resource_kind value
