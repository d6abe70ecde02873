-- ===== src/Handles.antt =====
-- `is_uxrce_rmw_identifier_valid` of src/utils.c, src/identifiers.c, and the return codes of rmw.
use Prim.Native.String.{String}
use text.Mathlib.Text.{◌==◌ as str_eq}
use rmw_microxrcedds.Base.{Bool, false, Option, none, some}

-- `rmw_ret_t`
pub data Ret : Type 0 where
  ok error timeout unsupported invalid_argument incorrect_rmw_implementation : Ret

abbrev pub eprosima_microxrcedds_identifier : String
eprosima_microxrcedds_identifier = "rmw_microxrcedds"

abbrev pub rmw_get_implementation_identifier : Option String
rmw_get_implementation_identifier = some eprosima_microxrcedds_identifier

unfoldable pub is_uxrce_rmw_identifier_valid : Option String → Bool
is_uxrce_rmw_identifier_valid none = false
is_uxrce_rmw_identifier_valid (some id) = str_eq id eprosima_microxrcedds_identifier
