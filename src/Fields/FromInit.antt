-- ===== src/Fields/FromInit.antt =====
-- The fields of `unimpi_vtable_t` in include/unimpi_vtable.h from `init` on.
use uni_mpi.Base.{String, List, [], ◌∷◌}
use uni_mpi.Vtable.{Gate, base, mpi_3_0}

unfoldable pub fields_from_init : List (Gate × String)
fields_from_init =
    (base, "init")
    ∷ (base, "finalize")
    ∷ (base, "initialized")
    ∷ (base, "finalized")
    ∷ (base, "abort")
    ∷ (base, "get_processor_name")
    ∷ (base, "get_version")
    ∷ (base, "get_library_version")
    ∷ (base, "wtime")
    ∷ (base, "wtick")
    ∷ (base, "barrier")
    ∷ (base, "send")
    ∷ (base, "recv")
    ∷ (base, "isend")
    ∷ (base, "irecv")
    ∷ (base, "ibsend")
    ∷ (base, "irsend")
    ∷ (base, "issend")
    ∷ (base, "wait")
    ∷ (base, "waitall")
    ∷ (base, "sendrecv")
    ∷ (base, "sendrecv_replace")
    ∷ (base, "ssend")
    ∷ (base, "bsend")
    ∷ (base, "rsend")
    ∷ (base, "ssend_init")
    ∷ (base, "bsend_init")
    ∷ (base, "rsend_init")
    ∷ (base, "buffer_attach")
    ∷ (base, "buffer_detach")
    ∷ (base, "test")
    ∷ (base, "testany")
    ∷ (base, "testsome")
    ∷ (base, "testall")
    ∷ (base, "waitany")
    ∷ (base, "waitsome")
    ∷ (mpi_3_0, "mprobe")
    ∷ (mpi_3_0, "improbe")
    ∷ (mpi_3_0, "mrecv")
    ∷ (mpi_3_0, "imrecv")
    ∷ (base, "probe")
    ∷ (base, "iprobe")
    ∷ (base, "send_init")
    ∷ (base, "recv_init")
    ∷ (base, "start")
    ∷ (base, "startall")
    ∷ (base, "request_free")
    ∷ (base, "request_get_status")
    ∷ (base, "grequest_start")
    ∷ (base, "grequest_complete")
    ∷ (base, "cancel")
    ∷ (base, "test_cancelled")
    ∷ (base, "get_count")
    ∷ (base, "get_elements")
    ∷ (base, "bcast")
    ∷ (base, "reduce")
    ∷ (base, "reduce_local")
    ∷ (base, "allreduce")
    ∷ (base, "gather")
    ∷ (base, "allgather")
    ∷ (base, "scatter")
    ∷ (base, "gatherv")
    ∷ (base, "allgatherv")
    ∷ (base, "scatterv")
    ∷ (base, "alltoall")
    ∷ (base, "alltoallv")
    ∷ (base, "alltoallw")
    ∷ (base, "reduce_scatter")
    ∷ []
