-- ===== src/Backends/Msmpi.antt =====
-- src/backends/msmpi.c: `unimpi_vtable_init_msmpi` as its statements in order.
mod FromInit
mod FromAlltoallw
mod FromCommCreate
mod FromTypeSizeX
mod FromFileGetInfo
mod FromIbsend
mod FromErrhandlerCreate
mod FromGraph
mod FromAintAdd
mod ErrorCodes
use FromInit.{from_init}
use FromAlltoallw.{from_alltoallw}
use FromCommCreate.{from_comm_create}
use FromTypeSizeX.{from_type_size_x}
use FromFileGetInfo.{from_file_get_info}
use FromIbsend.{from_ibsend}
use FromErrhandlerCreate.{from_errhandler_create}
use FromGraph.{from_graph}
use FromAintAdd.{from_aint_add}
unfoldable pub use ErrorCodes.{init_msmpi_error_codes}
use uni_mpi.Base.{ℕ, ◌++◌}
use uni_mpi.Base.Int.{ℤ}
use uni_mpi.Codes.{ok}
use uni_mpi.Platform.{Env}
use uni_mpi.Vtable.{Vtable, Program, run}

unfoldable pub msmpi_program : Program
unfolding from_init from_alltoallw from_comm_create from_type_size_x from_file_get_info from_ibsend
    from_errhandler_create init_msmpi_error_codes from_graph from_aint_add
msmpi_program =
    from_init ++ from_alltoallw ++ from_comm_create ++ from_type_size_x ++ from_file_get_info
    ++ from_ibsend ++ from_errhandler_create ++ init_msmpi_error_codes ++ from_graph
    ++ from_aint_add

unfoldable pub unimpi_vtable_init_msmpi : Env → ℕ → Vtable → ℤ × Vtable
unimpi_vtable_init_msmpi e h v = (ok, run e h msmpi_program v)
