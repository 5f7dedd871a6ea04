-- ===== src/Backends/Msmpi/FromInit.antt =====
-- The statements of `unimpi_vtable_init_msmpi` in src/backends/msmpi.c
-- from `init` on.
use uni_mpi.Base.{[], ◌∷◌}
use uni_mpi.Vtable.{Program, base, mpi_3_0, bind, native, wrap}

unfoldable pub from_init : Program
from_init =
    (base, bind "init" "MPI_Init")
    ∷ (base, bind "init_thread" "MPI_Init_thread")
    ∷ (base, bind "finalize" "MPI_Finalize")
    ∷ (base, bind "initialized" "MPI_Initialized")
    ∷ (base, bind "finalized" "MPI_Finalized")
    ∷ (base, bind "abort" "MPI_Abort")
    ∷ (base, bind "get_processor_name" "MPI_Get_processor_name")
    ∷ (base, bind "get_version" "MPI_Get_version")
    ∷ (base, bind "get_library_version" "MPI_Get_library_version")
    ∷ (base, bind "barrier" "MPI_Barrier")
    ∷ (base, bind "wtime" "MPI_Wtime")
    ∷ (base, bind "wtick" "MPI_Wtick")
    ∷ (base, bind "send" "MPI_Send")
    ∷ (base, bind "recv" "MPI_Recv")
    ∷ (base, bind "isend" "MPI_Isend")
    ∷ (base, bind "irecv" "MPI_Irecv")
    ∷ (base, bind "wait" "MPI_Wait")
    ∷ (base, native "msmpi_waitall" "MPI_Waitall")
    ∷ (base, wrap "waitall" "msmpi_wrap_waitall")
    ∷ (base, bind "sendrecv" "MPI_Sendrecv")
    ∷ (base, bind "sendrecv_replace" "MPI_Sendrecv_replace")
    ∷ (base, bind "ssend" "MPI_Ssend")
    ∷ (base, bind "ssend_init" "MPI_Ssend_init")
    ∷ (base, bind "bsend" "MPI_Bsend")
    ∷ (base, bind "bsend_init" "MPI_Bsend_init")
    ∷ (base, bind "buffer_attach" "MPI_Buffer_attach")
    ∷ (base, bind "buffer_detach" "MPI_Buffer_detach")
    ∷ (base, bind "rsend" "MPI_Rsend")
    ∷ (base, bind "rsend_init" "MPI_Rsend_init")
    ∷ (base, bind "test" "MPI_Test")
    ∷ (base, native "msmpi_testany" "MPI_Testany")
    ∷ (base, wrap "testany" "msmpi_wrap_testany")
    ∷ (base, native "msmpi_testsome" "MPI_Testsome")
    ∷ (base, wrap "testsome" "msmpi_wrap_testsome")
    ∷ (base, native "msmpi_testall" "MPI_Testall")
    ∷ (base, wrap "testall" "msmpi_wrap_testall")
    ∷ (base, native "msmpi_waitany" "MPI_Waitany")
    ∷ (base, wrap "waitany" "msmpi_wrap_waitany")
    ∷ (base, native "msmpi_waitsome" "MPI_Waitsome")
    ∷ (base, wrap "waitsome" "msmpi_wrap_waitsome")
    ∷ (base, bind "probe" "MPI_Probe")
    ∷ (base, bind "iprobe" "MPI_Iprobe")
    ∷ (mpi_3_0, bind "mprobe" "MPI_Mprobe")
    ∷ (mpi_3_0, bind "improbe" "MPI_Improbe")
    ∷ (mpi_3_0, bind "mrecv" "MPI_Mrecv")
    ∷ (mpi_3_0, bind "imrecv" "MPI_Imrecv")
    ∷ (base, bind "send_init" "MPI_Send_init")
    ∷ (base, bind "recv_init" "MPI_Recv_init")
    ∷ (base, bind "start" "MPI_Start")
    ∷ (base, native "msmpi_startall" "MPI_Startall")
    ∷ (base, wrap "startall" "msmpi_wrap_startall")
    ∷ (base, bind "request_free" "MPI_Request_free")
    ∷ (base, bind "cancel" "MPI_Cancel")
    ∷ (base, bind "test_cancelled" "MPI_Test_cancelled")
    ∷ (base, bind "get_count" "MPI_Get_count")
    ∷ (base, bind "get_elements" "MPI_Get_elements")
    ∷ (base, bind "bcast" "MPI_Bcast")
    ∷ (base, bind "reduce" "MPI_Reduce")
    ∷ (base, bind "allreduce" "MPI_Allreduce")
    ∷ (base, bind "gather" "MPI_Gather")
    ∷ (base, bind "allgather" "MPI_Allgather")
    ∷ (base, bind "scatter" "MPI_Scatter")
    ∷ (base, bind "gatherv" "MPI_Gatherv")
    ∷ (base, bind "allgatherv" "MPI_Allgatherv")
    ∷ (base, bind "scatterv" "MPI_Scatterv")
    ∷ (base, bind "alltoall" "MPI_Alltoall")
    ∷ (base, bind "alltoallv" "MPI_Alltoallv")
    ∷ []
