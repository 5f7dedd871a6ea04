-- ===== src/Backends/Mpich/FromGraphCreate.antt =====
-- The statements of `unimpi_vtable_init_mpich` in src/backends/mpich.c
-- from `graph_create` on.
use uni_mpi.Base.{[], ◌∷◌}
use uni_mpi.Vtable.{Program, base, mpi_3_0, bind}

unfoldable pub from_graph_create : Program
from_graph_create =
    (base, bind "graph_create" "MPI_Graph_create")
    ∷ (base, bind "graphdims_get" "MPI_Graphdims_get")
    ∷ (base, bind "graph_get" "MPI_Graph_get")
    ∷ (base, bind "graph_neighbors_count" "MPI_Graph_neighbors_count")
    ∷ (base, bind "graph_neighbors" "MPI_Graph_neighbors")
    ∷ (base, bind "graph_map" "MPI_Graph_map")
    ∷ (base, bind "dist_graph_create" "MPI_Dist_graph_create")
    ∷ (base, bind "dist_graph_create_adjacent" "MPI_Dist_graph_create_adjacent")
    ∷ (base, bind "dist_graph_neighbors_count" "MPI_Dist_graph_neighbors_count")
    ∷ (base, bind "dist_graph_neighbors" "MPI_Dist_graph_neighbors")
    ∷ (base, bind "topo_test" "MPI_Topo_test")
    ∷ (base, bind "win_create" "MPI_Win_create")
    ∷ (base, bind "win_free" "MPI_Win_free")
    ∷ (mpi_3_0, bind "win_allocate" "MPI_Win_allocate")
    ∷ (mpi_3_0, bind "win_allocate_shared" "MPI_Win_allocate_shared")
    ∷ (mpi_3_0, bind "win_create_dynamic" "MPI_Win_create_dynamic")
    ∷ (base, bind "win_set_name" "MPI_Win_set_name")
    ∷ (base, bind "win_get_name" "MPI_Win_get_name")
    ∷ (base, bind "put" "MPI_Put")
    ∷ (base, bind "get" "MPI_Get")
    ∷ (base, bind "accumulate" "MPI_Accumulate")
    ∷ (mpi_3_0, bind "get_accumulate" "MPI_Get_accumulate")
    ∷ (mpi_3_0, bind "fetch_and_op" "MPI_Fetch_and_op")
    ∷ (mpi_3_0, bind "compare_and_swap" "MPI_Compare_and_swap")
    ∷ (mpi_3_0, bind "rput" "MPI_Rput")
    ∷ (mpi_3_0, bind "rget" "MPI_Rget")
    ∷ (mpi_3_0, bind "raccumulate" "MPI_Raccumulate")
    ∷ (mpi_3_0, bind "rget_accumulate" "MPI_Rget_accumulate")
    ∷ (base, bind "win_fence" "MPI_Win_fence")
    ∷ (base, bind "win_lock" "MPI_Win_lock")
    ∷ (base, bind "win_unlock" "MPI_Win_unlock")
    ∷ (mpi_3_0, bind "win_lock_all" "MPI_Win_lock_all")
    ∷ (mpi_3_0, bind "win_unlock_all" "MPI_Win_unlock_all")
    ∷ (mpi_3_0, bind "win_flush" "MPI_Win_flush")
    ∷ (mpi_3_0, bind "win_flush_all" "MPI_Win_flush_all")
    ∷ (mpi_3_0, bind "win_sync" "MPI_Win_sync")
    ∷ (mpi_3_0, bind "win_flush_local" "MPI_Win_flush_local")
    ∷ (mpi_3_0, bind "win_attach" "MPI_Win_attach")
    ∷ (mpi_3_0, bind "win_detach" "MPI_Win_detach")
    ∷ (mpi_3_0, bind "win_shared_query" "MPI_Win_shared_query")
    ∷ (mpi_3_0, bind "win_flush_local_all" "MPI_Win_flush_local_all")
    ∷ (mpi_3_0, bind "win_get_info" "MPI_Win_get_info")
    ∷ (mpi_3_0, bind "win_set_info" "MPI_Win_set_info")
    ∷ (base, bind "win_start" "MPI_Win_start")
    ∷ (base, bind "win_complete" "MPI_Win_complete")
    ∷ (base, bind "win_post" "MPI_Win_post")
    ∷ (base, bind "win_wait" "MPI_Win_wait")
    ∷ (base, bind "win_test" "MPI_Win_test")
    ∷ (base, bind "file_open" "MPI_File_open")
    ∷ (base, bind "file_close" "MPI_File_close")
    ∷ (base, bind "file_delete" "MPI_File_delete")
    ∷ (base, bind "file_set_size" "MPI_File_set_size")
    ∷ (base, bind "file_preallocate" "MPI_File_preallocate")
    ∷ (base, bind "file_get_size" "MPI_File_get_size")
    ∷ (base, bind "file_get_group" "MPI_File_get_group")
    ∷ (base, bind "file_get_amode" "MPI_File_get_amode")
    ∷ []
