-- ===== src/Backends/Mpich/FromIalltoallw.antt =====
-- The statements of `unimpi_vtable_init_mpich` in src/backends/mpich.c
-- from `mpich_ialltoallw` on.
use uni_mpi.Base.{[], ◌∷◌}
use uni_mpi.Vtable.{Program, base, mpi_3_0, bind, native, wrap_if}

unfoldable pub from_ialltoallw : Program
from_ialltoallw =
    (mpi_3_0, native "mpich_ialltoallw" "MPI_Ialltoallw")
    ∷ (mpi_3_0, wrap_if "mpich_ialltoallw" "ialltoallw" "mpich_wrap_ialltoallw")
    ∷ (mpi_3_0, bind "ireduce" "MPI_Ireduce")
    ∷ (mpi_3_0, bind "iallreduce" "MPI_Iallreduce")
    ∷ (mpi_3_0, bind "ireduce_scatter" "MPI_Ireduce_scatter")
    ∷ (mpi_3_0, bind "ireduce_scatter_block" "MPI_Ireduce_scatter_block")
    ∷ (mpi_3_0, bind "iscan" "MPI_Iscan")
    ∷ (mpi_3_0, bind "iexscan" "MPI_Iexscan")
    ∷ (mpi_3_0, bind "neighbor_allgather" "MPI_Neighbor_allgather")
    ∷ (mpi_3_0, bind "neighbor_allgatherv" "MPI_Neighbor_allgatherv")
    ∷ (mpi_3_0, bind "neighbor_alltoall" "MPI_Neighbor_alltoall")
    ∷ (mpi_3_0, native "mpich_neighbor_alltoallv" "MPI_Neighbor_alltoallv")
    ∷ (
      mpi_3_0,
      wrap_if "mpich_neighbor_alltoallv" "neighbor_alltoallv" "mpich_wrap_neighbor_alltoallv",
    )
    ∷ (mpi_3_0, native "mpich_neighbor_alltoallw" "MPI_Neighbor_alltoallw")
    ∷ (
      mpi_3_0,
      wrap_if "mpich_neighbor_alltoallw" "neighbor_alltoallw" "mpich_wrap_neighbor_alltoallw",
    )
    ∷ (mpi_3_0, bind "ineighbor_allgather" "MPI_Ineighbor_allgather")
    ∷ (mpi_3_0, bind "ineighbor_allgatherv" "MPI_Ineighbor_allgatherv")
    ∷ (mpi_3_0, bind "ineighbor_alltoall" "MPI_Ineighbor_alltoall")
    ∷ (mpi_3_0, native "mpich_ineighbor_alltoallv" "MPI_Ineighbor_alltoallv")
    ∷ (
      mpi_3_0,
      wrap_if "mpich_ineighbor_alltoallv" "ineighbor_alltoallv" "mpich_wrap_ineighbor_alltoallv",
    )
    ∷ (mpi_3_0, native "mpich_ineighbor_alltoallw" "MPI_Ineighbor_alltoallw")
    ∷ (
      mpi_3_0,
      wrap_if "mpich_ineighbor_alltoallw" "ineighbor_alltoallw" "mpich_wrap_ineighbor_alltoallw",
    )
    ∷ (base, bind "group_size" "MPI_Group_size")
    ∷ (base, bind "group_rank" "MPI_Group_rank")
    ∷ (base, bind "group_translate_ranks" "MPI_Group_translate_ranks")
    ∷ (base, bind "group_compare" "MPI_Group_compare")
    ∷ (base, bind "group_union" "MPI_Group_union")
    ∷ (base, bind "group_intersection" "MPI_Group_intersection")
    ∷ (base, bind "group_difference" "MPI_Group_difference")
    ∷ (base, bind "group_incl" "MPI_Group_incl")
    ∷ (base, bind "group_excl" "MPI_Group_excl")
    ∷ (base, bind "group_range_incl" "MPI_Group_range_incl")
    ∷ (base, bind "group_range_excl" "MPI_Group_range_excl")
    ∷ (base, bind "group_free" "MPI_Group_free")
    ∷ (base, bind "comm_create" "MPI_Comm_create")
    ∷ (base, bind "comm_group" "MPI_Comm_group")
    ∷ (base, bind "comm_compare" "MPI_Comm_compare")
    ∷ (base, bind "comm_set_name" "MPI_Comm_set_name")
    ∷ (base, bind "comm_get_name" "MPI_Comm_get_name")
    ∷ (mpi_3_0, bind "comm_dup_with_info" "MPI_Comm_dup_with_info")
    ∷ (mpi_3_0, bind "comm_split_type" "MPI_Comm_split_type")
    ∷ (mpi_3_0, bind "comm_create_group" "MPI_Comm_create_group")
    ∷ (mpi_3_0, bind "comm_get_info" "MPI_Comm_get_info")
    ∷ (mpi_3_0, bind "comm_set_info" "MPI_Comm_set_info")
    ∷ (base, bind "intercomm_create" "MPI_Intercomm_create")
    ∷ (base, bind "intercomm_merge" "MPI_Intercomm_merge")
    ∷ (base, bind "comm_remote_size" "MPI_Comm_remote_size")
    ∷ (base, bind "comm_remote_group" "MPI_Comm_remote_group")
    ∷ (base, bind "comm_test_inter" "MPI_Comm_test_inter")
    ∷ (base, bind "cart_create" "MPI_Cart_create")
    ∷ (base, bind "cartdim_get" "MPI_Cartdim_get")
    ∷ (base, bind "cart_get" "MPI_Cart_get")
    ∷ (base, bind "cart_rank" "MPI_Cart_rank")
    ∷ (base, bind "cart_coords" "MPI_Cart_coords")
    ∷ (base, bind "cart_shift" "MPI_Cart_shift")
    ∷ (base, bind "cart_sub" "MPI_Cart_sub")
    ∷ (base, bind "cart_map" "MPI_Cart_map")
    ∷ (base, bind "dims_create" "MPI_Dims_create")
    ∷ []
