-- ===== src/Backends/Msmpi/FromCommCreate.antt =====
-- The statements of `unimpi_vtable_init_msmpi` in src/backends/msmpi.c
-- from `comm_create` on.
use uni_mpi.Base.{[], ◌∷◌}
use uni_mpi.Vtable.{Program, base, mpi_3_0, bind, native, wrap_if}

unfoldable pub from_comm_create : Program
from_comm_create =
    (base, bind "comm_create" "MPI_Comm_create")
    ∷ (base, bind "comm_group" "MPI_Comm_group")
    ∷ (base, bind "comm_compare" "MPI_Comm_compare")
    ∷ (base, bind "comm_set_name" "MPI_Comm_set_name")
    ∷ (base, bind "comm_get_name" "MPI_Comm_get_name")
    ∷ (mpi_3_0, bind "comm_dup_with_info" "MPI_Comm_dup_with_info")
    ∷ (mpi_3_0, bind "comm_split_type" "MPI_Comm_split_type")
    ∷ (mpi_3_0, bind "comm_create_group" "MPI_Comm_create_group")
    ∷ (mpi_3_0, bind "comm_get_info" "MPI_Comm_get_info")
    ∷ (mpi_3_0, bind "comm_set_info" "MPI_Comm_set_info")
    ∷ (base, bind "intercomm_create" "MPI_Intercomm_create")
    ∷ (base, bind "intercomm_merge" "MPI_Intercomm_merge")
    ∷ (base, bind "comm_remote_size" "MPI_Comm_remote_size")
    ∷ (base, bind "comm_remote_group" "MPI_Comm_remote_group")
    ∷ (base, bind "comm_test_inter" "MPI_Comm_test_inter")
    ∷ (base, bind "cart_create" "MPI_Cart_create")
    ∷ (base, bind "cartdim_get" "MPI_Cartdim_get")
    ∷ (base, bind "cart_get" "MPI_Cart_get")
    ∷ (base, bind "cart_rank" "MPI_Cart_rank")
    ∷ (base, bind "cart_coords" "MPI_Cart_coords")
    ∷ (base, bind "cart_shift" "MPI_Cart_shift")
    ∷ (base, bind "cart_sub" "MPI_Cart_sub")
    ∷ (base, bind "cart_map" "MPI_Cart_map")
    ∷ (base, bind "dims_create" "MPI_Dims_create")
    ∷ (base, bind "graph_create" "MPI_Graph_create")
    ∷ (base, bind "graphdims_get" "MPI_Graphdims_get")
    ∷ (base, bind "graph_get" "MPI_Graph_get")
    ∷ (base, bind "graph_neighbors_count" "MPI_Graph_neighbors_count")
    ∷ (base, bind "graph_neighbors" "MPI_Graph_neighbors")
    ∷ (base, bind "graph_map" "MPI_Graph_map")
    ∷ (base, bind "dist_graph_create" "MPI_Dist_graph_create")
    ∷ (base, bind "dist_graph_create_adjacent" "MPI_Dist_graph_create_adjacent")
    ∷ (base, bind "dist_graph_neighbors_count" "MPI_Dist_graph_neighbors_count")
    ∷ (base, bind "dist_graph_neighbors" "MPI_Dist_graph_neighbors")
    ∷ (base, bind "topo_test" "MPI_Topo_test")
    ∷ (base, bind "type_commit" "MPI_Type_commit")
    ∷ (base, bind "type_free" "MPI_Type_free")
    ∷ (base, bind "type_contiguous" "MPI_Type_contiguous")
    ∷ (base, bind "type_vector" "MPI_Type_vector")
    ∷ (base, bind "type_indexed" "MPI_Type_indexed")
    ∷ (base, bind "type_create_indexed_block" "MPI_Type_create_indexed_block")
    ∷ (base, bind "type_create_subarray" "MPI_Type_create_subarray")
    ∷ (base, bind "type_dup" "MPI_Type_dup")
    ∷ (base, bind "type_create_resized" "MPI_Type_create_resized")
    ∷ (base, bind "type_get_envelope" "MPI_Type_get_envelope")
    ∷ (base, native "msmpi_type_get_contents" "MPI_Type_get_contents")
    ∷ (base, wrap_if "msmpi_type_get_contents" "type_get_contents" "msmpi_wrap_type_get_contents")
    ∷ (base, bind "type_hvector" "MPI_Type_hvector")
    ∷ (base, bind "type_hindexed" "MPI_Type_hindexed")
    ∷ (base, bind "type_create_darray" "MPI_Type_create_darray")
    ∷ (base, bind "type_get_extent" "MPI_Type_get_extent")
    ∷ (base, bind "type_get_size" "MPI_Type_get_size")
    ∷ (base, bind "type_get_name" "MPI_Type_get_name")
    ∷ (base, bind "type_set_name" "MPI_Type_set_name")
    ∷ (base, bind "type_get_true_extent" "MPI_Type_get_true_extent")
    ∷ (base, bind "type_size" "MPI_Type_size")
    ∷ []
