-- ===== src/Fields/FromReduceScatterBlock.antt =====
-- The fields of `unimpi_vtable_t` in include/unimpi_vtable.h from `reduce_scatter_block` on.
use uni_mpi.Base.{String, List, [], ◌∷◌}
use uni_mpi.Vtable.{Gate, base, mpi_3_0}

unfoldable pub fields_from_reduce_scatter_block : List (Gate × String)
fields_from_reduce_scatter_block =
    (base, "reduce_scatter_block")
    ∷ (base, "scan")
    ∷ (base, "exscan")
    ∷ (mpi_3_0, "ibarrier")
    ∷ (mpi_3_0, "ibcast")
    ∷ (mpi_3_0, "igather")
    ∷ (mpi_3_0, "igatherv")
    ∷ (mpi_3_0, "iscatter")
    ∷ (mpi_3_0, "iscatterv")
    ∷ (mpi_3_0, "iallgather")
    ∷ (mpi_3_0, "iallgatherv")
    ∷ (mpi_3_0, "ialltoall")
    ∷ (mpi_3_0, "ialltoallv")
    ∷ (mpi_3_0, "ialltoallw")
    ∷ (mpi_3_0, "ireduce")
    ∷ (mpi_3_0, "iallreduce")
    ∷ (mpi_3_0, "ireduce_scatter")
    ∷ (mpi_3_0, "ireduce_scatter_block")
    ∷ (mpi_3_0, "iscan")
    ∷ (mpi_3_0, "iexscan")
    ∷ (mpi_3_0, "neighbor_allgather")
    ∷ (mpi_3_0, "neighbor_allgatherv")
    ∷ (mpi_3_0, "neighbor_alltoall")
    ∷ (mpi_3_0, "neighbor_alltoallv")
    ∷ (mpi_3_0, "neighbor_alltoallw")
    ∷ (mpi_3_0, "ineighbor_allgather")
    ∷ (mpi_3_0, "ineighbor_allgatherv")
    ∷ (mpi_3_0, "ineighbor_alltoall")
    ∷ (mpi_3_0, "ineighbor_alltoallv")
    ∷ (mpi_3_0, "ineighbor_alltoallw")
    ∷ (base, "group_size")
    ∷ (base, "group_rank")
    ∷ (base, "group_translate_ranks")
    ∷ (base, "group_compare")
    ∷ (base, "group_union")
    ∷ (base, "group_intersection")
    ∷ (base, "group_difference")
    ∷ (base, "group_incl")
    ∷ (base, "group_excl")
    ∷ (base, "group_range_incl")
    ∷ (base, "group_range_excl")
    ∷ (base, "group_free")
    ∷ (base, "comm_size")
    ∷ (base, "comm_rank")
    ∷ (base, "comm_dup")
    ∷ (base, "comm_split")
    ∷ (base, "comm_free")
    ∷ (base, "comm_create")
    ∷ (base, "comm_group")
    ∷ (base, "comm_compare")
    ∷ (base, "comm_set_name")
    ∷ (base, "comm_get_name")
    ∷ (mpi_3_0, "comm_dup_with_info")
    ∷ (mpi_3_0, "comm_split_type")
    ∷ (mpi_3_0, "comm_create_group")
    ∷ (mpi_3_0, "comm_get_info")
    ∷ (mpi_3_0, "comm_set_info")
    ∷ (base, "intercomm_create")
    ∷ (base, "intercomm_merge")
    ∷ (base, "comm_remote_size")
    ∷ (base, "comm_remote_group")
    ∷ (base, "comm_test_inter")
    ∷ (base, "cart_create")
    ∷ (base, "dims_create")
    ∷ (base, "cartdim_get")
    ∷ (base, "cart_get")
    ∷ (base, "cart_rank")
    ∷ []
