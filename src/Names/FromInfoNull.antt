-- ===== src/Names/FromInfoNull.antt =====
-- The macros of include/unimpi_std_macros.h from `MPI_INFO_NULL` on.
use uni_mpi.Base.{List, String, [], ◌∷◌}
use uni_mpi.Vtable.{Gate, base, mpi_3_0}
use uni_mpi.Names.Macro.{Replacement, field, forward, function, variable}

unfoldable pub macros_from_info_null : List (Gate × String × Replacement)
macros_from_info_null =
    (base, "MPI_INFO_NULL", variable "UNIMPI_INFO_NULL")
    ∷ (base, "MPI_CHAR", variable "UNIMPI_CHAR")
    ∷ (base, "MPI_SIGNED_CHAR", variable "UNIMPI_SIGNED_CHAR")
    ∷ (base, "MPI_UNSIGNED_CHAR", variable "UNIMPI_UNSIGNED_CHAR")
    ∷ (base, "MPI_BYTE", variable "UNIMPI_BYTE")
    ∷ (base, "MPI_SHORT", variable "UNIMPI_SHORT")
    ∷ (base, "MPI_UNSIGNED_SHORT", variable "UNIMPI_UNSIGNED_SHORT")
    ∷ (base, "MPI_INT", variable "UNIMPI_INT")
    ∷ (base, "MPI_UNSIGNED", variable "UNIMPI_UNSIGNED")
    ∷ (base, "MPI_LONG", variable "UNIMPI_LONG")
    ∷ (base, "MPI_UNSIGNED_LONG", variable "UNIMPI_UNSIGNED_LONG")
    ∷ (base, "MPI_FLOAT", variable "UNIMPI_FLOAT")
    ∷ (base, "MPI_DOUBLE", variable "UNIMPI_DOUBLE")
    ∷ (base, "MPI_LONG_DOUBLE", variable "UNIMPI_LONG_DOUBLE")
    ∷ (base, "MPI_LONG_LONG_INT", variable "UNIMPI_LONG_LONG_INT")
    ∷ (base, "MPI_LONG_LONG", variable "UNIMPI_LONG_LONG")
    ∷ (base, "MPI_UNSIGNED_LONG_LONG", variable "UNIMPI_UNSIGNED_LONG_LONG")
    ∷ (base, "MPI_MAX", variable "UNIMPI_MAX")
    ∷ (base, "MPI_MIN", variable "UNIMPI_MIN")
    ∷ (base, "MPI_SUM", variable "UNIMPI_SUM")
    ∷ (base, "MPI_PROD", variable "UNIMPI_PROD")
    ∷ (base, "MPI_LAND", variable "UNIMPI_LAND")
    ∷ (base, "MPI_BAND", variable "UNIMPI_BAND")
    ∷ (base, "MPI_LOR", variable "UNIMPI_LOR")
    ∷ (base, "MPI_BOR", variable "UNIMPI_BOR")
    ∷ (base, "MPI_LXOR", variable "UNIMPI_LXOR")
    ∷ (base, "MPI_BXOR", variable "UNIMPI_BXOR")
    ∷ (base, "MPI_MINLOC", variable "UNIMPI_MINLOC")
    ∷ (base, "MPI_MAXLOC", variable "UNIMPI_MAXLOC")
    ∷ (base, "MPI_COMM_WORLD", variable "UNIMPI_COMM_WORLD")
    ∷ (base, "MPI_COMM_SELF", variable "UNIMPI_COMM_SELF")
    ∷ (base, "MPI_FILE_NULL", variable "UNIMPI_FILE_NULL")
    ∷ (base, "MPI_ERRORS_ARE_FATAL", variable "UNIMPI_ERRORS_ARE_FATAL")
    ∷ (base, "MPI_ERRORS_RETURN", variable "UNIMPI_ERRORS_RETURN")
    ∷ (base, "MPI_ERRORS_ABORT", variable "UNIMPI_ERRORS_ABORT")
    ∷ (base, "MPI_REQUEST_NULL", variable "UNIMPI_REQUEST_NULL")
    ∷ (base, "MPI_STATUS_IGNORE", variable "UNIMPI_STATUS_IGNORE")
    ∷ (base, "MPI_STATUSES_IGNORE", variable "UNIMPI_STATUSES_IGNORE")
    ∷ (base, "MPI_CART", variable "UNIMPI_CART")
    ∷ (base, "MPI_GRAPH", variable "UNIMPI_GRAPH")
    ∷ (base, "MPI_DIST_GRAPH", variable "UNIMPI_DIST_GRAPH")
    ∷ (base, "MPI_Init", function "unimpi_init")
    ∷ (base, "MPI_Init_thread", function "unimpi_init_thread")
    ∷ (base, "MPI_Finalize", function "unimpi_finalize")
    ∷ (base, "MPI_Initialized", function "unimpi_mpi_initialized")
    ∷ (base, "MPI_Finalized", function "unimpi_mpi_finalized")
    ∷ (base, "MPI_Abort", field "abort")
    ∷ (base, "MPI_Get_processor_name", field "get_processor_name")
    ∷ (base, "MPI_Get_version", field "get_version")
    ∷ (base, "MPI_Get_library_version", field "get_library_version")
    ∷ (base, "MPI_Wtime", field "wtime")
    ∷ (base, "MPI_Wtick", field "wtick")
    ∷ (base, "MPI_Barrier", field "barrier")
    ∷ (base, "MPI_Send", field "send")
    ∷ (base, "MPI_Recv", field "recv")
    ∷ (base, "MPI_Isend", field "isend")
    ∷ (base, "MPI_Irecv", field "irecv")
    ∷ (base, "MPI_Ibsend", field "ibsend")
    ∷ (base, "MPI_Irsend", field "irsend")
    ∷ (base, "MPI_Issend", field "issend")
    ∷ (base, "MPI_Wait", field "wait")
    ∷ (base, "MPI_Waitall", field "waitall")
    ∷ (base, "MPI_Sendrecv", field "sendrecv")
    ∷ (base, "MPI_Sendrecv_replace", field "sendrecv_replace")
    ∷ (base, "MPI_Bcast", field "bcast")
    ∷ (base, "MPI_Reduce", field "reduce")
    ∷ (base, "MPI_Reduce_local", field "reduce_local")
    ∷ (base, "MPI_Allreduce", field "allreduce")
    ∷ (base, "MPI_Gather", field "gather")
    ∷ (base, "MPI_Allgather", field "allgather")
    ∷ (base, "MPI_Scatter", field "scatter")
    ∷ (base, "MPI_Comm_size", field "comm_size")
    ∷ (base, "MPI_Comm_rank", field "comm_rank")
    ∷ (base, "MPI_Comm_dup", field "comm_dup")
    ∷ (base, "MPI_Comm_split", field "comm_split")
    ∷ (base, "MPI_Comm_free", field "comm_free")
    ∷ (base, "MPI_COMM_WORLD", variable "UNIMPI_COMM_WORLD")
    ∷ (base, "MPI_COMM_SELF", variable "UNIMPI_COMM_SELF")
    ∷ (base, "MPI_Ssend", field "ssend")
    ∷ (base, "MPI_Ssend_init", field "ssend_init")
    ∷ (base, "MPI_Bsend", field "bsend")
    ∷ (base, "MPI_Bsend_init", field "bsend_init")
    ∷ (base, "MPI_Buffer_attach", field "buffer_attach")
    ∷ (base, "MPI_Buffer_detach", field "buffer_detach")
    ∷ (base, "MPI_Rsend", field "rsend")
    ∷ (base, "MPI_Rsend_init", field "rsend_init")
    ∷ (base, "MPI_Test", field "test")
    ∷ (base, "MPI_Testany", field "testany")
    ∷ (base, "MPI_Testsome", field "testsome")
    ∷ (base, "MPI_Testall", field "testall")
    ∷ (base, "MPI_Waitany", field "waitany")
    ∷ (base, "MPI_Waitsome", field "waitsome")
    ∷ (base, "MPI_Probe", field "probe")
    ∷ (base, "MPI_Iprobe", field "iprobe")
    ∷ (mpi_3_0, "MPI_Mprobe", field "mprobe")
    ∷ (mpi_3_0, "MPI_Improbe", field "improbe")
    ∷ (mpi_3_0, "MPI_Mrecv", field "mrecv")
    ∷ (mpi_3_0, "MPI_Imrecv", field "imrecv")
    ∷ (base, "MPI_Send_init", field "send_init")
    ∷ (base, "MPI_Recv_init", field "recv_init")
    ∷ (base, "MPI_Start", field "start")
    ∷ (base, "MPI_Startall", field "startall")
    ∷ (base, "MPI_Request_free", field "request_free")
    ∷ (base, "MPI_Request_get_status", field "request_get_status")
    ∷ (
      base,
      "MPI_Grequest_start",
      forward ("query_fn" ∷ "free_fn" ∷ "cancel_fn" ∷ "extra_state" ∷ "request" ∷ [])
          "grequest_start" ("query_fn" ∷ "free_fn" ∷ "cancel_fn" ∷ "extra_state" ∷ "request" ∷ []),
    )
    ∷ (base, "MPI_Grequest_complete", forward ("request" ∷ []) "grequest_complete" ("request" ∷ []))
    ∷ (base, "MPI_Cancel", field "cancel")
    ∷ []
