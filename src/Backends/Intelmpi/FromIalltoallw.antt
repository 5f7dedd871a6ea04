-- ===== src/Backends/Intelmpi/FromIalltoallw.antt =====
-- The statements of `unimpi_vtable_init_intelmpi` in src/backends/intelmpi.c
-- from `intelmpi_ialltoallw` on.
use uni_mpi.Base.{[], ◌∷◌}
use uni_mpi.Vtable.{Program, base, mpi_3_0, bind, native, wrap_if}

unfoldable pub from_ialltoallw : Program
from_ialltoallw =
    (mpi_3_0, native "intelmpi_ialltoallw" "MPI_Ialltoallw")
    ∷ (mpi_3_0, wrap_if "intelmpi_ialltoallw" "ialltoallw" "intelmpi_wrap_ialltoallw")
    ∷ (mpi_3_0, bind "ireduce" "MPI_Ireduce")
    ∷ (mpi_3_0, bind "iallreduce" "MPI_Iallreduce")
    ∷ (mpi_3_0, bind "ireduce_scatter" "MPI_Ireduce_scatter")
    ∷ (mpi_3_0, bind "ireduce_scatter_block" "MPI_Ireduce_scatter_block")
    ∷ (mpi_3_0, bind "iscan" "MPI_Iscan")
    ∷ (mpi_3_0, bind "iexscan" "MPI_Iexscan")
    ∷ (mpi_3_0, bind "neighbor_allgather" "MPI_Neighbor_allgather")
    ∷ (mpi_3_0, bind "neighbor_allgatherv" "MPI_Neighbor_allgatherv")
    ∷ (mpi_3_0, bind "neighbor_alltoall" "MPI_Neighbor_alltoall")
    ∷ (mpi_3_0, native "intelmpi_neighbor_alltoallv" "MPI_Neighbor_alltoallv")
    ∷ (
      mpi_3_0,
      wrap_if "intelmpi_neighbor_alltoallv" "neighbor_alltoallv" "intelmpi_wrap_neighbor_alltoallv",
    )
    ∷ (mpi_3_0, native "intelmpi_neighbor_alltoallw" "MPI_Neighbor_alltoallw")
    ∷ (
      mpi_3_0,
      wrap_if "intelmpi_neighbor_alltoallw" "neighbor_alltoallw" "intelmpi_wrap_neighbor_alltoallw",
    )
    ∷ (mpi_3_0, bind "ineighbor_allgather" "MPI_Ineighbor_allgather")
    ∷ (mpi_3_0, bind "ineighbor_allgatherv" "MPI_Ineighbor_allgatherv")
    ∷ (mpi_3_0, bind "ineighbor_alltoall" "MPI_Ineighbor_alltoall")
    ∷ (mpi_3_0, native "intelmpi_ineighbor_alltoallv" "MPI_Ineighbor_alltoallv")
    ∷ (
      mpi_3_0,
      wrap_if "intelmpi_ineighbor_alltoallv" "ineighbor_alltoallv"
          "intelmpi_wrap_ineighbor_alltoallv",
    )
    ∷ (mpi_3_0, native "intelmpi_ineighbor_alltoallw" "MPI_Ineighbor_alltoallw")
    ∷ (
      mpi_3_0,
      wrap_if "intelmpi_ineighbor_alltoallw" "ineighbor_alltoallw"
          "intelmpi_wrap_ineighbor_alltoallw",
    )
    ∷ (base, bind "win_create" "MPI_Win_create")
    ∷ (mpi_3_0, bind "win_allocate" "MPI_Win_allocate")
    ∷ (mpi_3_0, bind "win_allocate_shared" "MPI_Win_allocate_shared")
    ∷ (mpi_3_0, bind "win_create_dynamic" "MPI_Win_create_dynamic")
    ∷ (base, bind "win_free" "MPI_Win_free")
    ∷ (base, bind "win_set_name" "MPI_Win_set_name")
    ∷ (base, bind "win_get_name" "MPI_Win_get_name")
    ∷ (base, bind "put" "MPI_Put")
    ∷ (base, bind "get" "MPI_Get")
    ∷ (base, bind "accumulate" "MPI_Accumulate")
    ∷ (mpi_3_0, bind "get_accumulate" "MPI_Get_accumulate")
    ∷ (mpi_3_0, bind "fetch_and_op" "MPI_Fetch_and_op")
    ∷ (mpi_3_0, bind "compare_and_swap" "MPI_Compare_and_swap")
    ∷ (mpi_3_0, bind "rput" "MPI_Rput")
    ∷ (mpi_3_0, bind "rget" "MPI_Rget")
    ∷ (mpi_3_0, bind "raccumulate" "MPI_Raccumulate")
    ∷ (mpi_3_0, bind "rget_accumulate" "MPI_Rget_accumulate")
    ∷ (base, bind "win_fence" "MPI_Win_fence")
    ∷ (base, bind "win_start" "MPI_Win_start")
    ∷ (base, bind "win_complete" "MPI_Win_complete")
    ∷ (base, bind "win_post" "MPI_Win_post")
    ∷ (base, bind "win_wait" "MPI_Win_wait")
    ∷ (base, bind "win_test" "MPI_Win_test")
    ∷ (base, bind "win_lock" "MPI_Win_lock")
    ∷ (base, bind "win_unlock" "MPI_Win_unlock")
    ∷ (mpi_3_0, bind "win_lock_all" "MPI_Win_lock_all")
    ∷ (mpi_3_0, bind "win_unlock_all" "MPI_Win_unlock_all")
    ∷ (mpi_3_0, bind "win_flush" "MPI_Win_flush")
    ∷ (mpi_3_0, bind "win_flush_all" "MPI_Win_flush_all")
    ∷ (mpi_3_0, bind "win_flush_local" "MPI_Win_flush_local")
    ∷ (mpi_3_0, bind "win_sync" "MPI_Win_sync")
    ∷ []
