-- ===== src/Backends/Openmpi/CommValues.antt =====
-- The predefined communicators and handles of Open MPI, in src/backends/openmpi.c.
use uni_mpi.Base.{ℕ, ◌||◌, [], ◌∷◌, if◌then◌else◌, ◌==◌}
use uni_mpi.Base.Int.{ℤ, pos}
use uni_mpi.Base.Text.{Text, codes}
use uni_mpi.Codes.{ok, err_backend_init_failed}
use uni_mpi.Platform.{Env}
use uni_mpi.Vtable.{Vtable, Program, base, assign, resolve, update, run}

-- The `_addr` symbol points to the handle; the direct symbol of older versions is the handle.
unfoldable pub comm_value : Env → ℕ → Text → Text → ℕ
comm_value e h addr_symbol direct_symbol =
    let addr = e.dlsym h addr_symbol in
    let value = if addr == 0 then 0 else e.load_pointer addr in
    if value == 0 then e.dlsym h direct_symbol else value

-- After the communicators: the null request, the ignored status, the null info and file, and
-- the error handlers.
unfoldable pub handle_values : Program
handle_values =
    (base, resolve "UNIMPI_REQUEST_NULL" "ompi_request_null")
    ∷ (base, assign "UNIMPI_STATUS_IGNORE" (pos 0))
    ∷ (base, resolve "UNIMPI_INFO_NULL" "ompi_mpi_info_null")
    ∷ (base, resolve "UNIMPI_FILE_NULL" "ompi_mpi_file_null")
    ∷ (base, resolve "UNIMPI_ERRORS_ARE_FATAL" "ompi_mpi_errors_are_fatal")
    ∷ (base, resolve "UNIMPI_ERRORS_RETURN" "ompi_mpi_errors_return")
    ∷ (base, resolve "UNIMPI_ERRORS_ABORT" "ompi_mpi_errors_abort")
    ∷ []

unfoldable pub get_openmpi_comm_values : Env → ℕ → Vtable → ℤ × Vtable
unfolding comm_value handle_values
get_openmpi_comm_values e h v =
    let world = comm_value e h (codes "ompi_mpi_comm_world_addr") (codes "ompi_mpi_comm_world") in
    let self = comm_value e h (codes "ompi_mpi_comm_self_addr") (codes "ompi_mpi_comm_self") in
    let set_world = update v.globals "UNIMPI_COMM_WORLD" (pos world) in
    let set_self = update set_world "UNIMPI_COMM_SELF" (pos self) in
    if world == 0 || self == 0
    then (err_backend_init_failed, v)
    else (ok, run e h handle_values (record v { globals = set_self }))
