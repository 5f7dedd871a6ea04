-- ===== src/Backends/Intelmpi.antt =====
-- src/backends/intelmpi.c: `unimpi_vtable_init_intelmpi` as its statements in order.
mod FromInit
mod FromGatherv
mod FromGraphCreate
mod FromIalltoallw
mod FromWinAttach
mod FromOpenPort
mod FromErrhandlerCreate
mod FromCommSelf
mod FromGraph
mod FromAintAdd
mod ErrorCodes
use FromInit.{from_init}
use FromGatherv.{from_gatherv}
use FromGraphCreate.{from_graph_create}
use FromIalltoallw.{from_ialltoallw}
use FromWinAttach.{from_win_attach}
use FromOpenPort.{from_open_port}
use FromErrhandlerCreate.{from_errhandler_create}
use FromCommSelf.{from_comm_self}
use FromGraph.{from_graph}
use FromAintAdd.{from_aint_add}
unfoldable pub use ErrorCodes.{init_intelmpi_error_codes}
use uni_mpi.Base.{ℕ, ◌++◌, if◌then◌else◌, ◌==◌}
use uni_mpi.Base.Int.{ℤ, pos}
use uni_mpi.Base.Text.{codes}
use uni_mpi.Codes.{ok}
use uni_mpi.Platform.{Env}
use uni_mpi.Vtable.{Vtable, Program, update, run}

-- What `get_intelmpi_comm_world` writes through `comm`.
unfoldable pub get_intelmpi_comm_world : Env → ℕ → ℤ
get_intelmpi_comm_world e h =
    let ptr = e.dlsym h (codes "MPIR_C_MPI_COMM_WORLD") in
    if ptr == 0 then pos 0x44000000 else e.load_int ptr

unfoldable pub intelmpi_head : Program
unfolding from_init from_gatherv from_graph_create from_ialltoallw from_win_attach from_open_port
    from_errhandler_create
intelmpi_head =
    from_init ++ from_gatherv ++ from_graph_create ++ from_ialltoallw ++ from_win_attach
    ++ from_open_port ++ from_errhandler_create

unfoldable pub intelmpi_tail : Program
unfolding from_comm_self init_intelmpi_error_codes from_graph from_aint_add
intelmpi_tail = from_comm_self ++ init_intelmpi_error_codes ++ from_graph ++ from_aint_add

unfoldable pub unimpi_vtable_init_intelmpi : Env → ℕ → Vtable → ℤ × Vtable
unimpi_vtable_init_intelmpi e h v =
    let v = run e h intelmpi_head v in
    let world = update v.globals "UNIMPI_COMM_WORLD" (get_intelmpi_comm_world e h) in
    (ok, run e h intelmpi_tail (record v { globals = world }))
