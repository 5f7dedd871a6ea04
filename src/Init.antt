-- ===== src/Init.antt =====
-- src/vtable.c: validating a library, filling the tables for its implementation, and emptying them.
pub mod Core
use uni_mpi.Base.{ℕ, Bool, true, false, Option, none, some, String, if◌then◌else◌, ◌||◌, not}
use uni_mpi.Base.Text.{Text}
use uni_mpi.Base.Int.{ℤ, pos, int_eq}
use uni_mpi.Codes.{Backend, unknown, openmpi, mpich, intelmpi, msmpi, ok, err_symbol_not_found}
use uni_mpi.Platform.{Env, at_least}
use uni_mpi.Vtable.{Vtable, update}
use uni_mpi.Loader.{
  has_symbol, unimpi_loader_identify_backend, unimpi_loader_check_platform_support,
}
use uni_mpi.Backends.Openmpi.{unimpi_vtable_init_openmpi}
use uni_mpi.Backends.Mpich.{unimpi_vtable_init_mpich}
use uni_mpi.Backends.Intelmpi.{unimpi_vtable_init_intelmpi}
use uni_mpi.Backends.Msmpi.{unimpi_vtable_init_msmpi}

unfoldable pub unimpi_get_backend_type : Vtable → Backend
unimpi_get_backend_type v = v.backend_type

unfoldable pub unimpi_vtable_validate_core : Env → ℕ → ℤ
unimpi_vtable_validate_core e h =
    if not (has_symbol e h "MPI_Init")
      || (not (has_symbol e h "MPI_Finalize")
          || (not (has_symbol e h "MPI_Comm_size") || not (has_symbol e h "MPI_Comm_rank")))
    then err_symbol_not_found
    else ok

-- The `switch` over the backend type.
unfoldable pub init_backend : Backend → Env → ℕ → Vtable → ℤ × Vtable
init_backend openmpi = unimpi_vtable_init_openmpi
init_backend intelmpi = unimpi_vtable_init_intelmpi
init_backend msmpi = unimpi_vtable_init_msmpi
init_backend mpich = unimpi_vtable_init_mpich
init_backend unknown = unimpi_vtable_init_mpich

-- The status sentinel and, where it is compiled in, the MPI-T table start out empty.
unfoldable pub reset : Env → Vtable → Vtable
reset e v =
    let v = record v { globals = update v.globals "UNIMPI_STATUS_IGNORE" (pos 0) } in
    if at_least e.target 3 0 then record v { unimpi_mt = λ _. 0 } else v

-- `name` is what `unimpi_get_backend_name()` returns: the name saved at the last load.
unfoldable pub unimpi_vtable_init : Env → ℕ → Option Text → Vtable → ℤ × Vtable
unfolding reset init_backend
unimpi_vtable_init e h name v0 =
    let v1 = reset e v0 in
    let valid = unimpi_vtable_validate_core e h in
    let t = unimpi_loader_identify_backend e h in
    let v2 = record v1 { backend_type = t; backend_handle = h } in
    let supported = unimpi_loader_check_platform_support e t name in
    if int_eq valid ok
    then if int_eq supported ok then init_backend t e h v2 else (supported, v2)
    else (valid, v1)

unfoldable pub unimpi_vtable_cleanup : Vtable → Vtable
unimpi_vtable_cleanup v =
    let world = update v.globals "UNIMPI_COMM_WORLD" (pos 0) in
    let self = update world "UNIMPI_COMM_SELF" (pos 0) in
    record v {
      unimpi = λ _. 0;
      globals = update self "UNIMPI_STATUS_IGNORE" (pos 0);
      backend_type = unknown;
      backend_handle = 0;
    }
