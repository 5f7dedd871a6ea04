-- ===== src/Backends/Intelmpi/FromGatherv.antt =====
-- The statements of `unimpi_vtable_init_intelmpi` in src/backends/intelmpi.c
-- from `gatherv` on.
use uni_mpi.Base.{[], ◌∷◌}
use uni_mpi.Vtable.{Program, base, mpi_3_0, bind, native, wrap_if}

unfoldable pub from_gatherv : Program
from_gatherv =
    (base, bind "gatherv" "MPI_Gatherv")
    ∷ (base, bind "allgatherv" "MPI_Allgatherv")
    ∷ (base, bind "scatterv" "MPI_Scatterv")
    ∷ (base, bind "alltoall" "MPI_Alltoall")
    ∷ (base, bind "alltoallv" "MPI_Alltoallv")
    ∷ (base, native "intelmpi_alltoallw" "MPI_Alltoallw")
    ∷ (base, wrap_if "intelmpi_alltoallw" "alltoallw" "intelmpi_wrap_alltoallw")
    ∷ (base, bind "reduce_scatter" "MPI_Reduce_scatter")
    ∷ (base, bind "reduce_scatter_block" "MPI_Reduce_scatter_block")
    ∷ (base, bind "scan" "MPI_Scan")
    ∷ (base, bind "exscan" "MPI_Exscan")
    ∷ (base, bind "comm_size" "MPI_Comm_size")
    ∷ (base, bind "comm_rank" "MPI_Comm_rank")
    ∷ (base, bind "comm_dup" "MPI_Comm_dup")
    ∷ (base, bind "comm_split" "MPI_Comm_split")
    ∷ (base, bind "comm_free" "MPI_Comm_free")
    ∷ (base, bind "comm_create" "MPI_Comm_create")
    ∷ (base, bind "comm_group" "MPI_Comm_group")
    ∷ (base, bind "comm_compare" "MPI_Comm_compare")
    ∷ (base, bind "comm_set_name" "MPI_Comm_set_name")
    ∷ (base, bind "comm_get_name" "MPI_Comm_get_name")
    ∷ (mpi_3_0, bind "comm_dup_with_info" "MPI_Comm_dup_with_info")
    ∷ (mpi_3_0, bind "comm_split_type" "MPI_Comm_split_type")
    ∷ (mpi_3_0, bind "comm_create_group" "MPI_Comm_create_group")
    ∷ (mpi_3_0, bind "comm_get_info" "MPI_Comm_get_info")
    ∷ (mpi_3_0, bind "comm_set_info" "MPI_Comm_set_info")
    ∷ (base, bind "intercomm_create" "MPI_Intercomm_create")
    ∷ (base, bind "intercomm_merge" "MPI_Intercomm_merge")
    ∷ (base, bind "comm_remote_size" "MPI_Comm_remote_size")
    ∷ (base, bind "comm_remote_group" "MPI_Comm_remote_group")
    ∷ (base, bind "comm_test_inter" "MPI_Comm_test_inter")
    ∷ (base, bind "group_size" "MPI_Group_size")
    ∷ (base, bind "group_rank" "MPI_Group_rank")
    ∷ (base, bind "group_translate_ranks" "MPI_Group_translate_ranks")
    ∷ (base, bind "group_compare" "MPI_Group_compare")
    ∷ (base, bind "group_union" "MPI_Group_union")
    ∷ (base, bind "group_intersection" "MPI_Group_intersection")
    ∷ (base, bind "group_difference" "MPI_Group_difference")
    ∷ (base, bind "group_incl" "MPI_Group_incl")
    ∷ (base, bind "group_excl" "MPI_Group_excl")
    ∷ (base, bind "group_range_incl" "MPI_Group_range_incl")
    ∷ (base, bind "group_range_excl" "MPI_Group_range_excl")
    ∷ (base, bind "group_free" "MPI_Group_free")
    ∷ (base, bind "cart_create" "MPI_Cart_create")
    ∷ (base, bind "cartdim_get" "MPI_Cartdim_get")
    ∷ (base, bind "cart_get" "MPI_Cart_get")
    ∷ (base, bind "cart_rank" "MPI_Cart_rank")
    ∷ (base, bind "cart_coords" "MPI_Cart_coords")
    ∷ (base, bind "cart_shift" "MPI_Cart_shift")
    ∷ (base, bind "cart_sub" "MPI_Cart_sub")
    ∷ (base, bind "cart_map" "MPI_Cart_map")
    ∷ (base, bind "dims_create" "MPI_Dims_create")
    ∷ []
