-- ===== src/Globals.antt =====
-- The global variables of the library and the values they start with. A backend assigns some of
-- them; nothing puts them back. Those of src/mp_constants.c exist from target version 3.0 on.
pub mod Codes
pub mod Stale
pub mod Declared
pub mod Resolved
pub mod FurtherCodes
pub mod Handles
pub mod Tools
pub mod Callbacks
use Codes.{error_globals}
use FurtherCodes.{further_error_globals}
use Handles.{handle_globals}
use Tools.{tools_globals}
use Callbacks.{callback_globals}
use uni_mpi.Base.{String, List, [], ◌∷◌, ◌++◌, str_eq, if◌then◌else◌}
use uni_mpi.Base.Int.{ℤ, pos}

unfoldable pub value_of : List (String × ℤ) → String → ℤ
value_of [] s = pos 0
value_of ((name, value) ∷ rest) s = if str_eq name s then value else value_of rest s

unfoldable pub initial_globals : String → ℤ
unfolding value_of error_globals further_error_globals handle_globals tools_globals callback_globals
initial_globals =
    value_of (
      error_globals ++ further_error_globals ++ handle_globals ++ tools_globals ++ callback_globals)
