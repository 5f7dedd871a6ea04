-- ===== src/Backends/Mpich.antt =====
-- src/backends/mpich.c: `unimpi_vtable_init_mpich` as its statements in order.
mod FromInit
mod FromAlltoallw
mod FromIalltoallw
mod FromGraphCreate
mod FromFileGetInfo
mod FromIbsend
mod FromErrhandlerCreate
mod FromLockExclusive
mod FromGraph
mod FromAintAdd
mod ErrorCodes
use FromInit.{from_init}
use FromAlltoallw.{from_alltoallw}
use FromIalltoallw.{from_ialltoallw}
use FromGraphCreate.{from_graph_create}
use FromFileGetInfo.{from_file_get_info}
use FromIbsend.{from_ibsend}
use FromErrhandlerCreate.{from_errhandler_create}
use FromLockExclusive.{from_lock_exclusive}
use FromGraph.{from_graph}
use FromAintAdd.{from_aint_add}
unfoldable pub use ErrorCodes.{init_mpich_error_codes}
use uni_mpi.Base.{ℕ, ◌++◌, if◌then◌else◌, ◌==◌}
use uni_mpi.Base.Int.{ℤ, pos}
use uni_mpi.Base.Text.{codes}
use uni_mpi.Codes.{ok}
use uni_mpi.Platform.{Env}
use uni_mpi.Vtable.{Vtable, Program, update, run}

-- What `get_mpich_comm_world` writes through `comm`.
unfoldable pub get_mpich_comm_world : Env → ℕ → ℤ
get_mpich_comm_world e h =
    let ptr = e.dlsym h (codes "MPIR_Comm_world") in
    if ptr == 0 then pos 0x44000000 else e.load_int ptr

unfoldable pub get_mpich_comm_self : Env → ℕ → ℤ
get_mpich_comm_self e h =
    let ptr = e.dlsym h (codes "MPIR_Comm_self") in
    if ptr == 0 then pos 0x44000001 else e.load_int ptr

unfoldable pub mpich_head : Program
unfolding from_init from_alltoallw from_ialltoallw from_graph_create from_file_get_info from_ibsend
    from_errhandler_create
mpich_head =
    from_init ++ from_alltoallw ++ from_ialltoallw ++ from_graph_create ++ from_file_get_info
    ++ from_ibsend ++ from_errhandler_create

unfoldable pub mpich_tail : Program
unfolding from_lock_exclusive init_mpich_error_codes from_graph from_aint_add
mpich_tail = from_lock_exclusive ++ init_mpich_error_codes ++ from_graph ++ from_aint_add

unfoldable pub unimpi_vtable_init_mpich : Env → ℕ → Vtable → ℤ × Vtable
unimpi_vtable_init_mpich e h v =
    let v = run e h mpich_head v in
    let world = update v.globals "UNIMPI_COMM_WORLD" (get_mpich_comm_world e h) in
    let self = update world "UNIMPI_COMM_SELF" (get_mpich_comm_self e h) in
    (ok, run e h mpich_tail (record v { globals = self }))
