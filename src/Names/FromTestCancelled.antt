-- ===== src/Names/FromTestCancelled.antt =====
-- The macros of include/unimpi_std_macros.h from `MPI_Test_cancelled` on.
use uni_mpi.Base.{List, String, [], ◌∷◌}
use uni_mpi.Vtable.{Gate, base, mpi_3_0}
use uni_mpi.Names.Macro.{Replacement, field, forward}

unfoldable pub macros_from_test_cancelled : List (Gate × String × Replacement)
macros_from_test_cancelled =
    (base, "MPI_Test_cancelled", field "test_cancelled")
    ∷ (base, "MPI_Get_count", field "get_count")
    ∷ (base, "MPI_Get_elements", field "get_elements")
    ∷ (base, "MPI_Status_get_source", field "status_get_source")
    ∷ (base, "MPI_Status_get_tag", field "status_get_tag")
    ∷ (base, "MPI_Status_get_error", field "status_get_error")
    ∷ (base, "MPI_Gatherv", field "gatherv")
    ∷ (base, "MPI_Allgatherv", field "allgatherv")
    ∷ (base, "MPI_Scatterv", field "scatterv")
    ∷ (base, "MPI_Alltoall", field "alltoall")
    ∷ (base, "MPI_Alltoallv", field "alltoallv")
    ∷ (base, "MPI_Alltoallw", field "alltoallw")
    ∷ (base, "MPI_Reduce_scatter", field "reduce_scatter")
    ∷ (base, "MPI_Reduce_scatter_block", field "reduce_scatter_block")
    ∷ (base, "MPI_Scan", field "scan")
    ∷ (base, "MPI_Exscan", field "exscan")
    ∷ (base, "MPI_Type_commit", field "type_commit")
    ∷ (base, "MPI_Type_free", field "type_free")
    ∷ (base, "MPI_Type_contiguous", field "type_contiguous")
    ∷ (base, "MPI_Type_vector", field "type_vector")
    ∷ (base, "MPI_Type_indexed", field "type_indexed")
    ∷ (base, "MPI_Type_create_indexed_block", field "type_create_indexed_block")
    ∷ (base, "MPI_Type_create_subarray", field "type_create_subarray")
    ∷ (base, "MPI_Type_dup", field "type_dup")
    ∷ (
      base,
      "MPI_Type_create_resized",
      forward ("oldtype" ∷ "lb" ∷ "extent" ∷ "newtype" ∷ []) "type_create_resized"
          ("oldtype" ∷ "lb" ∷ "extent" ∷ "newtype" ∷ []),
    )
    ∷ (base, "MPI_Type_create_hvector", field "type_create_hvector")
    ∷ (base, "MPI_Type_create_hindexed", field "type_create_hindexed")
    ∷ (base, "MPI_Type_create_struct", field "type_create_struct")
    ∷ (base, "MPI_Type_struct", field "type_struct")
    ∷ (base, "MPI_Type_match_size", field "type_match_size")
    ∷ (base, "MPI_Type_create_f90_integer", field "type_create_f90_integer")
    ∷ (base, "MPI_Type_create_f90_real", field "type_create_f90_real")
    ∷ (base, "MPI_Type_create_f90_complex", field "type_create_f90_complex")
    ∷ (base, "MPI_Type_hvector", field "type_hvector")
    ∷ (base, "MPI_Type_hindexed", field "type_hindexed")
    ∷ (base, "MPI_Type_create_darray", field "type_create_darray")
    ∷ (base, "MPI_Type_get_extent", field "type_get_extent")
    ∷ (base, "MPI_Type_get_size", field "type_get_size")
    ∷ (base, "MPI_Type_get_name", field "type_get_name")
    ∷ (base, "MPI_Type_set_name", field "type_set_name")
    ∷ (base, "MPI_Type_get_true_extent", field "type_get_true_extent")
    ∷ (
      base,
      "MPI_Type_get_envelope",
      forward ("datatype" ∷ "num_integers" ∷ "num_addresses" ∷ "num_datatypes" ∷ "combiner" ∷ [])
          "type_get_envelope"
          ("datatype" ∷ "num_integers" ∷ "num_addresses" ∷ "num_datatypes" ∷ "combiner" ∷ []),
    )
    ∷ (
      base,
      "MPI_Type_get_contents",
      forward
          ("datatype" ∷ "max_integers" ∷ "max_addresses" ∷ "max_datatypes" ∷ "array_of_integers"
            ∷ "array_of_addresses" ∷ "array_of_datatypes" ∷ [])
          "type_get_contents"
          ("datatype" ∷ "max_integers" ∷ "max_addresses" ∷ "max_datatypes" ∷ "array_of_integers"
            ∷ "array_of_addresses" ∷ "array_of_datatypes" ∷ []),
    )
    ∷ (base, "MPI_Type_size", field "type_size")
    ∷ (base, "MPI_Type_extent", field "type_extent")
    ∷ (base, "MPI_Type_lb", field "type_lb")
    ∷ (base, "MPI_Type_ub", field "type_ub")
    ∷ (base, "MPI_Get_address", field "get_address")
    ∷ (base, "MPI_Address", field "address")
    ∷ (base, "MPI_Pack", field "pack")
    ∷ (base, "MPI_Unpack", field "unpack")
    ∷ (base, "MPI_Pack_size", field "pack_size")
    ∷ (base, "MPI_Pack_external", field "pack_external")
    ∷ (base, "MPI_Unpack_external", field "unpack_external")
    ∷ (base, "MPI_Pack_external_size", field "pack_external_size")
    ∷ (mpi_3_0, "MPI_Ibarrier", field "ibarrier")
    ∷ (mpi_3_0, "MPI_Ibcast", field "ibcast")
    ∷ (mpi_3_0, "MPI_Igather", field "igather")
    ∷ (mpi_3_0, "MPI_Igatherv", field "igatherv")
    ∷ (mpi_3_0, "MPI_Iscatter", field "iscatter")
    ∷ (mpi_3_0, "MPI_Iscatterv", field "iscatterv")
    ∷ (mpi_3_0, "MPI_Iallgather", field "iallgather")
    ∷ (mpi_3_0, "MPI_Iallgatherv", field "iallgatherv")
    ∷ (mpi_3_0, "MPI_Ialltoall", field "ialltoall")
    ∷ (mpi_3_0, "MPI_Ialltoallv", field "ialltoallv")
    ∷ (mpi_3_0, "MPI_Ialltoallw", field "ialltoallw")
    ∷ (mpi_3_0, "MPI_Ireduce", field "ireduce")
    ∷ (mpi_3_0, "MPI_Iallreduce", field "iallreduce")
    ∷ (mpi_3_0, "MPI_Ireduce_scatter", field "ireduce_scatter")
    ∷ (mpi_3_0, "MPI_Ireduce_scatter_block", field "ireduce_scatter_block")
    ∷ (mpi_3_0, "MPI_Iscan", field "iscan")
    ∷ (mpi_3_0, "MPI_Iexscan", field "iexscan")
    ∷ (mpi_3_0, "MPI_Neighbor_allgather", field "neighbor_allgather")
    ∷ (mpi_3_0, "MPI_Neighbor_allgatherv", field "neighbor_allgatherv")
    ∷ (mpi_3_0, "MPI_Neighbor_alltoall", field "neighbor_alltoall")
    ∷ (mpi_3_0, "MPI_Neighbor_alltoallv", field "neighbor_alltoallv")
    ∷ (mpi_3_0, "MPI_Neighbor_alltoallw", field "neighbor_alltoallw")
    ∷ (mpi_3_0, "MPI_Ineighbor_allgather", field "ineighbor_allgather")
    ∷ (mpi_3_0, "MPI_Ineighbor_allgatherv", field "ineighbor_allgatherv")
    ∷ (mpi_3_0, "MPI_Ineighbor_alltoall", field "ineighbor_alltoall")
    ∷ (mpi_3_0, "MPI_Ineighbor_alltoallv", field "ineighbor_alltoallv")
    ∷ (mpi_3_0, "MPI_Ineighbor_alltoallw", field "ineighbor_alltoallw")
    ∷ (base, "MPI_Group_size", field "group_size")
    ∷ (base, "MPI_Group_rank", field "group_rank")
    ∷ (base, "MPI_Group_translate_ranks", field "group_translate_ranks")
    ∷ (base, "MPI_Group_compare", field "group_compare")
    ∷ (base, "MPI_Group_union", field "group_union")
    ∷ (base, "MPI_Group_intersection", field "group_intersection")
    ∷ (base, "MPI_Group_difference", field "group_difference")
    ∷ (base, "MPI_Group_incl", field "group_incl")
    ∷ (base, "MPI_Group_excl", field "group_excl")
    ∷ (base, "MPI_Group_range_incl", field "group_range_incl")
    ∷ (base, "MPI_Group_range_excl", field "group_range_excl")
    ∷ (base, "MPI_Group_free", field "group_free")
    ∷ (base, "MPI_Comm_create", field "comm_create")
    ∷ (base, "MPI_Comm_group", field "comm_group")
    ∷ (base, "MPI_Comm_set_name", field "comm_set_name")
    ∷ (base, "MPI_Comm_get_name", field "comm_get_name")
    ∷ (mpi_3_0, "MPI_Comm_dup_with_info", field "comm_dup_with_info")
    ∷ []
