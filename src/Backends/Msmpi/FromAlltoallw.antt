-- ===== src/Backends/Msmpi/FromAlltoallw.antt =====
-- The statements of `unimpi_vtable_init_msmpi` in src/backends/msmpi.c
-- from `msmpi_alltoallw` on.
use uni_mpi.Base.{[], ◌∷◌}
use uni_mpi.Vtable.{Program, base, mpi_3_0, bind, native, wrap_if}

unfoldable pub from_alltoallw : Program
from_alltoallw =
    (base, native "msmpi_alltoallw" "MPI_Alltoallw")
    ∷ (base, wrap_if "msmpi_alltoallw" "alltoallw" "msmpi_wrap_alltoallw")
    ∷ (base, bind "reduce_scatter" "MPI_Reduce_scatter")
    ∷ (base, bind "reduce_scatter_block" "MPI_Reduce_scatter_block")
    ∷ (base, bind "scan" "MPI_Scan")
    ∷ (base, bind "exscan" "MPI_Exscan")
    ∷ (mpi_3_0, bind "ibarrier" "MPI_Ibarrier")
    ∷ (mpi_3_0, bind "ibcast" "MPI_Ibcast")
    ∷ (mpi_3_0, bind "igather" "MPI_Igather")
    ∷ (mpi_3_0, bind "igatherv" "MPI_Igatherv")
    ∷ (mpi_3_0, bind "iscatter" "MPI_Iscatter")
    ∷ (mpi_3_0, bind "iscatterv" "MPI_Iscatterv")
    ∷ (mpi_3_0, bind "iallgather" "MPI_Iallgather")
    ∷ (mpi_3_0, bind "iallgatherv" "MPI_Iallgatherv")
    ∷ (mpi_3_0, bind "ialltoall" "MPI_Ialltoall")
    ∷ (mpi_3_0, bind "ialltoallv" "MPI_Ialltoallv")
    ∷ (mpi_3_0, native "msmpi_ialltoallw" "MPI_Ialltoallw")
    ∷ (mpi_3_0, wrap_if "msmpi_ialltoallw" "ialltoallw" "msmpi_wrap_ialltoallw")
    ∷ (mpi_3_0, bind "ireduce" "MPI_Ireduce")
    ∷ (mpi_3_0, bind "iallreduce" "MPI_Iallreduce")
    ∷ (mpi_3_0, bind "ireduce_scatter" "MPI_Ireduce_scatter")
    ∷ (mpi_3_0, bind "ireduce_scatter_block" "MPI_Ireduce_scatter_block")
    ∷ (mpi_3_0, bind "iscan" "MPI_Iscan")
    ∷ (mpi_3_0, bind "iexscan" "MPI_Iexscan")
    ∷ (mpi_3_0, bind "neighbor_allgather" "MPI_Neighbor_allgather")
    ∷ (mpi_3_0, bind "neighbor_allgatherv" "MPI_Neighbor_allgatherv")
    ∷ (mpi_3_0, bind "neighbor_alltoall" "MPI_Neighbor_alltoall")
    ∷ (mpi_3_0, native "msmpi_neighbor_alltoallv" "MPI_Neighbor_alltoallv")
    ∷ (
      mpi_3_0,
      wrap_if "msmpi_neighbor_alltoallv" "neighbor_alltoallv" "msmpi_wrap_neighbor_alltoallv",
    )
    ∷ (mpi_3_0, native "msmpi_neighbor_alltoallw" "MPI_Neighbor_alltoallw")
    ∷ (
      mpi_3_0,
      wrap_if "msmpi_neighbor_alltoallw" "neighbor_alltoallw" "msmpi_wrap_neighbor_alltoallw",
    )
    ∷ (mpi_3_0, bind "ineighbor_allgather" "MPI_Ineighbor_allgather")
    ∷ (mpi_3_0, bind "ineighbor_allgatherv" "MPI_Ineighbor_allgatherv")
    ∷ (mpi_3_0, bind "ineighbor_alltoall" "MPI_Ineighbor_alltoall")
    ∷ (mpi_3_0, native "msmpi_ineighbor_alltoallv" "MPI_Ineighbor_alltoallv")
    ∷ (
      mpi_3_0,
      wrap_if "msmpi_ineighbor_alltoallv" "ineighbor_alltoallv" "msmpi_wrap_ineighbor_alltoallv",
    )
    ∷ (mpi_3_0, native "msmpi_ineighbor_alltoallw" "MPI_Ineighbor_alltoallw")
    ∷ (
      mpi_3_0,
      wrap_if "msmpi_ineighbor_alltoallw" "ineighbor_alltoallw" "msmpi_wrap_ineighbor_alltoallw",
    )
    ∷ (base, bind "comm_size" "MPI_Comm_size")
    ∷ (base, bind "comm_rank" "MPI_Comm_rank")
    ∷ (base, bind "comm_dup" "MPI_Comm_dup")
    ∷ (base, bind "comm_split" "MPI_Comm_split")
    ∷ (base, bind "comm_free" "MPI_Comm_free")
    ∷ (base, bind "group_size" "MPI_Group_size")
    ∷ (base, bind "group_rank" "MPI_Group_rank")
    ∷ (base, bind "group_translate_ranks" "MPI_Group_translate_ranks")
    ∷ (base, bind "group_compare" "MPI_Group_compare")
    ∷ (base, bind "group_union" "MPI_Group_union")
    ∷ (base, bind "group_intersection" "MPI_Group_intersection")
    ∷ (base, bind "group_difference" "MPI_Group_difference")
    ∷ (base, bind "group_incl" "MPI_Group_incl")
    ∷ (base, bind "group_excl" "MPI_Group_excl")
    ∷ (base, bind "group_range_incl" "MPI_Group_range_incl")
    ∷ (base, bind "group_range_excl" "MPI_Group_range_excl")
    ∷ (base, bind "group_free" "MPI_Group_free")
    ∷ []
