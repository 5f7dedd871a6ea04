-- ===== src/Backends/Openmpi.antt =====
-- src/backends/openmpi.c: `unimpi_vtable_init_openmpi` as its statements in order.
mod FromInit
mod FromReduceScatter
mod FromNeighborAllgather
mod FromWinAllocate
mod FromFileRead
mod FromIbsend
mod FromCommDupFn
mod FromCart
mod FromAintAdd
mod ErrorCodes
mod CommValues
pub mod DatatypeMap
pub mod OpMap
use FromInit.{from_init}
use FromReduceScatter.{from_reduce_scatter}
use FromNeighborAllgather.{from_neighbor_allgather}
use FromWinAllocate.{from_win_allocate}
use FromFileRead.{from_file_read}
use FromIbsend.{from_ibsend}
use FromCommDupFn.{from_comm_dup_fn}
use FromCart.{from_cart}
use FromAintAdd.{from_aint_add}
unfoldable pub use CommValues.{get_openmpi_comm_values}
use DatatypeMap.{datatype_map}
use OpMap.{op_map}
unfoldable pub use ErrorCodes.{init_openmpi_error_codes}
use uni_mpi.Base.{ℕ, ◌++◌, if◌then◌else◌}
use uni_mpi.Base.Int.{ℤ, int_eq}
use uni_mpi.Codes.{ok}
use uni_mpi.Platform.{Env}
use uni_mpi.Vtable.{Vtable, Program, update, run}

unfoldable pub openmpi_head : Program
unfolding from_init from_reduce_scatter from_neighbor_allgather from_win_allocate from_file_read
    from_ibsend from_comm_dup_fn
openmpi_head =
    from_init ++ from_reduce_scatter ++ from_neighbor_allgather ++ from_win_allocate
    ++ from_file_read ++ from_ibsend ++ from_comm_dup_fn

unfoldable pub openmpi_tail : Program
unfolding init_openmpi_error_codes from_cart from_aint_add
openmpi_tail = init_openmpi_error_codes ++ from_cart ++ from_aint_add

-- A symbol that is missing leaves 0 in its variable and is only counted for a warning.
unfoldable pub get_openmpi_datatype_values : Env → ℕ → Vtable → ℤ × Vtable
unfolding datatype_map
get_openmpi_datatype_values e h v =
    let v = run e h datatype_map v in
    let alias = update v.globals "UNIMPI_LONG_LONG" (v.globals "UNIMPI_LONG_LONG_INT") in
    (ok, record v { globals = alias })

unfoldable pub get_openmpi_op_values : Env → ℕ → Vtable → ℤ × Vtable
unfolding op_map
get_openmpi_op_values e h v = (ok, run e h op_map v)

unfoldable pub unimpi_vtable_init_openmpi : Env → ℕ → Vtable → ℤ × Vtable
unimpi_vtable_init_openmpi e h v0 =
    let (comm, v1) = get_openmpi_comm_values e h (run e h openmpi_head v0) in
    let (datatype, v2) = get_openmpi_datatype_values e h v1 in
    let (op, v3) = get_openmpi_op_values e h v2 in
    if int_eq comm ok
    then if int_eq datatype ok
      then if int_eq op ok then (ok, run e h openmpi_tail v3) else (op, v3)
      else (datatype, v2)
    else (comm, v1)
