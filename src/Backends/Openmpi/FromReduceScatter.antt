-- ===== src/Backends/Openmpi/FromReduceScatter.antt =====
-- The statements of `unimpi_vtable_init_openmpi` in src/backends/openmpi.c
-- from `reduce_scatter` on.
use uni_mpi.Base.{[], ◌∷◌}
use uni_mpi.Vtable.{Program, base, mpi_3_0, bind}

unfoldable pub from_reduce_scatter : Program
from_reduce_scatter =
    (base, bind "reduce_scatter" "MPI_Reduce_scatter")
    ∷ (base, bind "reduce_scatter_block" "MPI_Reduce_scatter_block")
    ∷ (base, bind "scan" "MPI_Scan")
    ∷ (base, bind "exscan" "MPI_Exscan")
    ∷ (base, bind "comm_size" "MPI_Comm_size")
    ∷ (base, bind "comm_rank" "MPI_Comm_rank")
    ∷ (base, bind "comm_dup" "MPI_Comm_dup")
    ∷ (base, bind "comm_split" "MPI_Comm_split")
    ∷ (base, bind "comm_free" "MPI_Comm_free")
    ∷ (base, bind "type_commit" "MPI_Type_commit")
    ∷ (base, bind "type_free" "MPI_Type_free")
    ∷ (base, bind "type_contiguous" "MPI_Type_contiguous")
    ∷ (base, bind "type_vector" "MPI_Type_vector")
    ∷ (base, bind "type_hvector" "MPI_Type_hvector")
    ∷ (base, bind "type_indexed" "MPI_Type_indexed")
    ∷ (base, bind "type_hindexed" "MPI_Type_hindexed")
    ∷ (base, bind "type_create_indexed_block" "MPI_Type_create_indexed_block")
    ∷ (base, bind "type_create_subarray" "MPI_Type_create_subarray")
    ∷ (base, bind "type_create_darray" "MPI_Type_create_darray")
    ∷ (base, bind "type_dup" "MPI_Type_dup")
    ∷ (base, bind "type_create_resized" "MPI_Type_create_resized")
    ∷ (base, bind "type_get_envelope" "MPI_Type_get_envelope")
    ∷ (base, bind "type_get_contents" "MPI_Type_get_contents")
    ∷ (base, bind "type_get_extent" "MPI_Type_get_extent")
    ∷ (base, bind "type_get_true_extent" "MPI_Type_get_true_extent")
    ∷ (base, bind "type_get_size" "MPI_Type_get_size")
    ∷ (base, bind "type_size" "MPI_Type_size")
    ∷ (mpi_3_0, bind "type_size_x" "MPI_Type_size_x")
    ∷ (mpi_3_0, bind "type_get_extent_x" "MPI_Type_get_extent_x")
    ∷ (mpi_3_0, bind "type_get_true_extent_x" "MPI_Type_get_true_extent_x")
    ∷ (mpi_3_0, bind "type_create_hindexed_block" "MPI_Type_create_hindexed_block")
    ∷ (mpi_3_0, bind "get_elements_x" "MPI_Get_elements_x")
    ∷ (mpi_3_0, bind "status_set_elements_x" "MPI_Status_set_elements_x")
    ∷ (base, bind "type_get_name" "MPI_Type_get_name")
    ∷ (base, bind "type_set_name" "MPI_Type_set_name")
    ∷ (base, bind "type_extent" "MPI_Type_extent")
    ∷ (base, bind "type_lb" "MPI_Type_lb")
    ∷ (base, bind "type_ub" "MPI_Type_ub")
    ∷ (base, bind "pack" "MPI_Pack")
    ∷ (base, bind "unpack" "MPI_Unpack")
    ∷ (base, bind "pack_size" "MPI_Pack_size")
    ∷ (base, bind "pack_external" "MPI_Pack_external")
    ∷ (base, bind "unpack_external" "MPI_Unpack_external")
    ∷ (base, bind "pack_external_size" "MPI_Pack_external_size")
    ∷ (mpi_3_0, bind "ibarrier" "MPI_Ibarrier")
    ∷ (mpi_3_0, bind "ibcast" "MPI_Ibcast")
    ∷ (mpi_3_0, bind "igather" "MPI_Igather")
    ∷ (mpi_3_0, bind "igatherv" "MPI_Igatherv")
    ∷ (mpi_3_0, bind "iscatter" "MPI_Iscatter")
    ∷ (mpi_3_0, bind "iscatterv" "MPI_Iscatterv")
    ∷ (mpi_3_0, bind "iallgather" "MPI_Iallgather")
    ∷ (mpi_3_0, bind "iallgatherv" "MPI_Iallgatherv")
    ∷ (mpi_3_0, bind "ialltoall" "MPI_Ialltoall")
    ∷ (mpi_3_0, bind "ialltoallv" "MPI_Ialltoallv")
    ∷ (mpi_3_0, bind "ialltoallw" "MPI_Ialltoallw")
    ∷ (mpi_3_0, bind "ialltoallw" "MPI_Ialltoallw")
    ∷ (mpi_3_0, bind "ireduce" "MPI_Ireduce")
    ∷ (mpi_3_0, bind "iallreduce" "MPI_Iallreduce")
    ∷ (mpi_3_0, bind "ireduce_scatter" "MPI_Ireduce_scatter")
    ∷ (mpi_3_0, bind "ireduce_scatter_block" "MPI_Ireduce_scatter_block")
    ∷ (mpi_3_0, bind "iscan" "MPI_Iscan")
    ∷ (mpi_3_0, bind "iexscan" "MPI_Iexscan")
    ∷ []
