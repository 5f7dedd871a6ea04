-- ===== src/Backends/Openmpi/FromNeighborAllgather.antt =====
-- The statements of `unimpi_vtable_init_openmpi` in src/backends/openmpi.c
-- from `neighbor_allgather` on.
use uni_mpi.Base.{[], ◌∷◌}
use uni_mpi.Vtable.{Program, base, mpi_3_0, bind}

unfoldable pub from_neighbor_allgather : Program
from_neighbor_allgather =
    (mpi_3_0, bind "neighbor_allgather" "MPI_Neighbor_allgather")
    ∷ (mpi_3_0, bind "neighbor_allgatherv" "MPI_Neighbor_allgatherv")
    ∷ (mpi_3_0, bind "neighbor_alltoall" "MPI_Neighbor_alltoall")
    ∷ (mpi_3_0, bind "neighbor_alltoallv" "MPI_Neighbor_alltoallv")
    ∷ (mpi_3_0, bind "neighbor_alltoallw" "MPI_Neighbor_alltoallw")
    ∷ (mpi_3_0, bind "ineighbor_allgather" "MPI_Ineighbor_allgather")
    ∷ (mpi_3_0, bind "ineighbor_allgatherv" "MPI_Ineighbor_allgatherv")
    ∷ (mpi_3_0, bind "ineighbor_alltoall" "MPI_Ineighbor_alltoall")
    ∷ (mpi_3_0, bind "ineighbor_alltoallv" "MPI_Ineighbor_alltoallv")
    ∷ (mpi_3_0, bind "ineighbor_alltoallw" "MPI_Ineighbor_alltoallw")
    ∷ (base, bind "group_size" "MPI_Group_size")
    ∷ (base, bind "group_rank" "MPI_Group_rank")
    ∷ (base, bind "group_translate_ranks" "MPI_Group_translate_ranks")
    ∷ (base, bind "group_compare" "MPI_Group_compare")
    ∷ (base, bind "group_union" "MPI_Group_union")
    ∷ (base, bind "group_intersection" "MPI_Group_intersection")
    ∷ (base, bind "group_difference" "MPI_Group_difference")
    ∷ (base, bind "group_incl" "MPI_Group_incl")
    ∷ (base, bind "group_excl" "MPI_Group_excl")
    ∷ (base, bind "group_range_incl" "MPI_Group_range_incl")
    ∷ (base, bind "group_range_excl" "MPI_Group_range_excl")
    ∷ (base, bind "group_free" "MPI_Group_free")
    ∷ (base, bind "comm_create" "MPI_Comm_create")
    ∷ (base, bind "comm_group" "MPI_Comm_group")
    ∷ (base, bind "comm_compare" "MPI_Comm_compare")
    ∷ (base, bind "comm_set_name" "MPI_Comm_set_name")
    ∷ (base, bind "comm_get_name" "MPI_Comm_get_name")
    ∷ (mpi_3_0, bind "comm_dup_with_info" "MPI_Comm_dup_with_info")
    ∷ (mpi_3_0, bind "comm_split_type" "MPI_Comm_split_type")
    ∷ (mpi_3_0, bind "comm_create_group" "MPI_Comm_create_group")
    ∷ (mpi_3_0, bind "comm_get_info" "MPI_Comm_get_info")
    ∷ (mpi_3_0, bind "comm_set_info" "MPI_Comm_set_info")
    ∷ (base, bind "intercomm_create" "MPI_Intercomm_create")
    ∷ (base, bind "intercomm_merge" "MPI_Intercomm_merge")
    ∷ (base, bind "comm_remote_size" "MPI_Comm_remote_size")
    ∷ (base, bind "comm_remote_group" "MPI_Comm_remote_group")
    ∷ (base, bind "comm_test_inter" "MPI_Comm_test_inter")
    ∷ (base, bind "cart_create" "MPI_Cart_create")
    ∷ (base, bind "cartdim_get" "MPI_Cartdim_get")
    ∷ (base, bind "cart_get" "MPI_Cart_get")
    ∷ (base, bind "cart_rank" "MPI_Cart_rank")
    ∷ (base, bind "cart_coords" "MPI_Cart_coords")
    ∷ (base, bind "cart_shift" "MPI_Cart_shift")
    ∷ (base, bind "cart_sub" "MPI_Cart_sub")
    ∷ (base, bind "cart_map" "MPI_Cart_map")
    ∷ (base, bind "dims_create" "MPI_Dims_create")
    ∷ (base, bind "graph_create" "MPI_Graph_create")
    ∷ (base, bind "graphdims_get" "MPI_Graphdims_get")
    ∷ (base, bind "graph_get" "MPI_Graph_get")
    ∷ (base, bind "graph_neighbors_count" "MPI_Graph_neighbors_count")
    ∷ (base, bind "graph_neighbors" "MPI_Graph_neighbors")
    ∷ (base, bind "graph_map" "MPI_Graph_map")
    ∷ (base, bind "dist_graph_create" "MPI_Dist_graph_create")
    ∷ (base, bind "dist_graph_create_adjacent" "MPI_Dist_graph_create_adjacent")
    ∷ (base, bind "dist_graph_neighbors_count" "MPI_Dist_graph_neighbors_count")
    ∷ (base, bind "dist_graph_neighbors" "MPI_Dist_graph_neighbors")
    ∷ (base, bind "topo_test" "MPI_Topo_test")
    ∷ (base, bind "win_create" "MPI_Win_create")
    ∷ []
