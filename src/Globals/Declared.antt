-- ===== src/Globals/Declared.antt =====
-- The variables that the headers declare, against those that the sources define.
mod Errors
mod FurtherErrors
mod Callbacks
mod Handles
mod Tools
use Errors.{error_variables}
use FurtherErrors.{further_error_variables}
use Callbacks.{callback_variables}
use Handles.{handle_variables}
use Tools.{tools_variables}
use mathlib.Core.List.{Memᴰ}
use mathlib.Core.Path.{subst}
use uni_mpi.Base.{Bool, true, false, String, List, ◌++◌, str_eq, any, all, ◌||◌, ◌≡◌, refl, arith}
use uni_mpi.Base.Int.{ℤ}
use uni_mpi.Vtable.{Gate, base, mpi_3_0, mpi_3_1}
use uni_mpi.Vtable.Binding.{all-Memᴰ}
use uni_mpi.Globals.Codes.{error_globals}
use uni_mpi.Globals.FurtherCodes.{further_error_globals}
use uni_mpi.Globals.Handles.{handle_globals}
use uni_mpi.Globals.Tools.{tools_globals}
use uni_mpi.Globals.Callbacks.{callback_globals}

-- With the `#if` that each stands under.
unfoldable pub declared_variables : List (Gate × String)
unfolding error_variables further_error_variables callback_variables handle_variables
    tools_variables
declared_variables =
    error_variables ++ further_error_variables ++ callback_variables ++ handle_variables
    ++ tools_variables

abbrev defines : List (String × ℤ) → String → Bool
defines variables s = any (λ x. str_eq x.0 s) variables

abbrev always_defined : String → Bool
always_defined s =
    defines (error_globals ++ further_error_globals ++ handle_globals ++ callback_globals) s

-- The variables of src/mp_constants.c stand under the `#if` for 3.0.
abbrev pub is_defined : Gate → String → Bool
is_defined base s = always_defined s
is_defined _ s = always_defined s || defines tools_globals s

-- Declared, and defined nowhere.
abbrev pub is_undefined : String → Bool
is_undefined s = str_eq "MPI_TEST_CANCELLED_TRUE" s || str_eq "MPI_TEST_CANCELLED_FALSE" s

abbrev resolves : Gate × String → Bool
resolves (g, s) = is_undefined s || is_defined g s

all_resolve : all resolves declared_variables ≡ true
unfolding declared_variables error_globals further_error_globals handle_globals tools_globals
    callback_globals
all_resolve = refl

none_defined :
    (g : Gate)
    → (is_defined g "MPI_TEST_CANCELLED_TRUE" ≡ false)
      × (is_defined g "MPI_TEST_CANCELLED_FALSE" ≡ false)
unfolding error_globals further_error_globals handle_globals tools_globals callback_globals
none_defined base = (refl, refl)
none_defined mpi_3_0 = (refl, refl)
none_defined mpi_3_1 = (refl, refl)

-- Every variable that one of the three headers declares for a target version, except
-- MPI_TEST_CANCELLED_TRUE and MPI_TEST_CANCELLED_FALSE, is defined with an initial value in a
-- source file that is compiled for that version. Those two are defined nowhere.
pub declared_defined :
    (g : Gate) (s : String)
    → Memᴰ (g, s) declared_variables
    → is_undefined s ≡ false
    → (is_defined g s ≡ true)
      × (is_defined g "MPI_TEST_CANCELLED_TRUE" ≡ false)
      × (is_defined g "MPI_TEST_CANCELLED_FALSE" ≡ false)
declared_defined g s m n =
    let resolved = all-Memᴰ resolves declared_variables all_resolve m in
    let (first, second) = none_defined g in
    (subst (λ b. (b || is_defined g s) ≡ true) n resolved, first, second)
