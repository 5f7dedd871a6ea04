-- ===== src/Fields/FromCartCoords.antt =====
-- The fields of `unimpi_vtable_t` in include/unimpi_vtable.h from `cart_coords` on.
use uni_mpi.Base.{String, List, [], ◌∷◌}
use uni_mpi.Vtable.{Gate, base, mpi_3_0}

unfoldable pub fields_from_cart_coords : List (Gate × String)
fields_from_cart_coords =
    (base, "cart_coords")
    ∷ (base, "cart_shift")
    ∷ (base, "cart_sub")
    ∷ (base, "cart_map")
    ∷ (base, "graph_create")
    ∷ (base, "graphdims_get")
    ∷ (base, "graph_get")
    ∷ (base, "graph_neighbors_count")
    ∷ (base, "graph_neighbors")
    ∷ (base, "graph_map")
    ∷ (base, "dist_graph_create")
    ∷ (base, "dist_graph_create_adjacent")
    ∷ (base, "dist_graph_neighbors_count")
    ∷ (base, "dist_graph_neighbors")
    ∷ (base, "topo_test")
    ∷ (base, "win_create")
    ∷ (mpi_3_0, "win_allocate")
    ∷ (mpi_3_0, "win_allocate_shared")
    ∷ (mpi_3_0, "win_create_dynamic")
    ∷ (base, "win_free")
    ∷ (base, "win_set_name")
    ∷ (base, "win_get_name")
    ∷ (base, "put")
    ∷ (base, "get")
    ∷ (base, "accumulate")
    ∷ (mpi_3_0, "get_accumulate")
    ∷ (mpi_3_0, "fetch_and_op")
    ∷ (mpi_3_0, "compare_and_swap")
    ∷ (mpi_3_0, "rput")
    ∷ (mpi_3_0, "rget")
    ∷ (mpi_3_0, "raccumulate")
    ∷ (mpi_3_0, "rget_accumulate")
    ∷ (base, "win_fence")
    ∷ (base, "win_start")
    ∷ (base, "win_complete")
    ∷ (base, "win_post")
    ∷ (base, "win_wait")
    ∷ (base, "win_test")
    ∷ (base, "win_lock")
    ∷ (base, "win_unlock")
    ∷ (mpi_3_0, "win_lock_all")
    ∷ (mpi_3_0, "win_unlock_all")
    ∷ (mpi_3_0, "win_flush")
    ∷ (mpi_3_0, "win_flush_all")
    ∷ (mpi_3_0, "win_flush_local")
    ∷ (mpi_3_0, "win_sync")
    ∷ (mpi_3_0, "win_attach")
    ∷ (mpi_3_0, "win_detach")
    ∷ (mpi_3_0, "win_shared_query")
    ∷ (mpi_3_0, "win_flush_local_all")
    ∷ (mpi_3_0, "win_get_info")
    ∷ (mpi_3_0, "win_set_info")
    ∷ (base, "file_open")
    ∷ (base, "file_close")
    ∷ (base, "file_delete")
    ∷ (base, "file_set_size")
    ∷ (base, "file_preallocate")
    ∷ (base, "file_get_size")
    ∷ (base, "file_get_group")
    ∷ (base, "file_get_amode")
    ∷ (base, "file_get_info")
    ∷ (base, "file_set_info")
    ∷ (base, "file_seek")
    ∷ (base, "file_get_position")
    ∷ (base, "file_get_byte_offset")
    ∷ (base, "file_seek_shared")
    ∷ (base, "file_get_position_shared")
    ∷ (base, "file_get_type_extent")
    ∷ (base, "file_read")
    ∷ (base, "file_read_all")
    ∷ (base, "file_write")
    ∷ (base, "file_write_all")
    ∷ (base, "file_read_at")
    ∷ (base, "file_read_at_all")
    ∷ (base, "file_write_at")
    ∷ (base, "file_write_at_all")
    ∷ (base, "file_read_shared")
    ∷ (base, "file_write_shared")
    ∷ (base, "file_read_ordered")
    ∷ []
