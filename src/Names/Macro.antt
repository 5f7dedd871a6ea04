-- ===== src/Names/Macro.antt =====
-- What a macro of include/unimpi_std_macros.h stands for.
use uni_mpi.Base.{ℕ, Bool, true, false, String, List, [], ◌∷◌, Option, none, some, str_eq, ◌&&◌}
use uni_mpi.Vtable.{Vtable}
use uni_mpi.Backends.Parity.{legacy_local}

pub data Replacement : Type 0 where
  -- `unimpi.field`
  field : String → Replacement
  -- `unimpi_mt.field`
  mt_field : String → Replacement
  -- `MPI_Name(parameters)` for `unimpi.field(arguments)`
  forward : List String → String → List String → Replacement
  -- `UNIMPI_NAME`
  variable : String → Replacement
  -- `unimpi_name`
  function : String → Replacement

-- The function pointer that a call under the name goes through.
unfoldable pub pointer : Replacement → Vtable → Option ℕ
pointer (field f) v = some (v.unimpi f)
pointer (mt_field f) v = some (v.unimpi_mt f)
pointer (forward parameters f arguments) v = some (v.unimpi f)
pointer (variable name) v = none
pointer (function name) v = none

-- The field may hold a function of UniMPI's own.
abbrev pub is_local : Replacement → Bool
is_local (field f) = legacy_local f
is_local (forward parameters f arguments) = legacy_local f
is_local _ = false

abbrev pub list_eq : List String → List String → Bool
list_eq [] [] = true
list_eq (a ∷ as') (b ∷ bs) = str_eq a b && list_eq as' bs
list_eq _ _ = false
