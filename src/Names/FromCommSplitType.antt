-- ===== src/Names/FromCommSplitType.antt =====
-- The macros of include/unimpi_std_macros.h from `MPI_Comm_split_type` on.
use uni_mpi.Base.{List, String, [], ◌∷◌}
use uni_mpi.Vtable.{Gate, base, mpi_3_0}
use uni_mpi.Names.Macro.{Replacement, field, forward}

unfoldable pub macros_from_comm_split_type : List (Gate × String × Replacement)
macros_from_comm_split_type =
    (mpi_3_0, "MPI_Comm_split_type", field "comm_split_type")
    ∷ (mpi_3_0, "MPI_Comm_create_group", field "comm_create_group")
    ∷ (mpi_3_0, "MPI_Comm_get_info", field "comm_get_info")
    ∷ (mpi_3_0, "MPI_Comm_set_info", field "comm_set_info")
    ∷ (base, "MPI_Comm_compare", field "comm_compare")
    ∷ (
      base,
      "MPI_Intercomm_create",
      forward
          ("local_comm" ∷ "local_leader" ∷ "peer_comm" ∷ "remote_leader" ∷ "tag" ∷ "newintercomm"
            ∷ [])
          "intercomm_create"
          ("local_comm" ∷ "local_leader" ∷ "peer_comm" ∷ "remote_leader" ∷ "tag" ∷ "newintercomm"
            ∷ []),
    )
    ∷ (
      base,
      "MPI_Intercomm_merge",
      forward ("intercomm" ∷ "high" ∷ "newintracomm" ∷ []) "intercomm_merge"
          ("intercomm" ∷ "high" ∷ "newintracomm" ∷ []),
    )
    ∷ (
      base,
      "MPI_Comm_remote_size",
      forward ("comm" ∷ "size" ∷ []) "comm_remote_size" ("comm" ∷ "size" ∷ []),
    )
    ∷ (
      base,
      "MPI_Comm_remote_group",
      forward ("comm" ∷ "group" ∷ []) "comm_remote_group" ("comm" ∷ "group" ∷ []),
    )
    ∷ (
      base,
      "MPI_Comm_test_inter",
      forward ("comm" ∷ "flag" ∷ []) "comm_test_inter" ("comm" ∷ "flag" ∷ []),
    )
    ∷ (
      base,
      "MPI_Cart_create",
      forward ("comm_old" ∷ "ndims" ∷ "dims" ∷ "periods" ∷ "reorder" ∷ "comm_cart" ∷ [])
          "cart_create" ("comm_old" ∷ "ndims" ∷ "dims" ∷ "periods" ∷ "reorder" ∷ "comm_cart" ∷ []),
    )
    ∷ (
      base,
      "MPI_Cartdim_get",
      forward ("comm" ∷ "ndims" ∷ []) "cartdim_get" ("comm" ∷ "ndims" ∷ []),
    )
    ∷ (
      base,
      "MPI_Cart_get",
      forward ("comm" ∷ "maxdims" ∷ "dims" ∷ "periods" ∷ "coords" ∷ []) "cart_get"
          ("comm" ∷ "maxdims" ∷ "dims" ∷ "periods" ∷ "coords" ∷ []),
    )
    ∷ (
      base,
      "MPI_Cart_rank",
      forward ("comm" ∷ "coords" ∷ "rank" ∷ []) "cart_rank" ("comm" ∷ "coords" ∷ "rank" ∷ []),
    )
    ∷ (
      base,
      "MPI_Cart_coords",
      forward ("comm" ∷ "rank" ∷ "maxdims" ∷ "coords" ∷ []) "cart_coords"
          ("comm" ∷ "rank" ∷ "maxdims" ∷ "coords" ∷ []),
    )
    ∷ (
      base,
      "MPI_Cart_shift",
      forward ("comm" ∷ "direction" ∷ "disp" ∷ "rank_source" ∷ "rank_dest" ∷ []) "cart_shift"
          ("comm" ∷ "direction" ∷ "disp" ∷ "rank_source" ∷ "rank_dest" ∷ []),
    )
    ∷ (
      base,
      "MPI_Cart_sub",
      forward ("comm" ∷ "remain_dims" ∷ "newcomm" ∷ []) "cart_sub"
          ("comm" ∷ "remain_dims" ∷ "newcomm" ∷ []),
    )
    ∷ (
      base,
      "MPI_Cart_map",
      forward ("comm" ∷ "ndims" ∷ "dims" ∷ "periods" ∷ "newrank" ∷ []) "cart_map"
          ("comm" ∷ "ndims" ∷ "dims" ∷ "periods" ∷ "newrank" ∷ []),
    )
    ∷ (
      base,
      "MPI_Dims_create",
      forward ("nnodes" ∷ "ndims" ∷ "dims" ∷ []) "dims_create" ("nnodes" ∷ "ndims" ∷ "dims" ∷ []),
    )
    ∷ (
      base,
      "MPI_Graph_create",
      forward ("comm_old" ∷ "nnodes" ∷ "index" ∷ "edges" ∷ "reorder" ∷ "comm_graph" ∷ [])
          "graph_create"
          ("comm_old" ∷ "nnodes" ∷ "index" ∷ "edges" ∷ "reorder" ∷ "comm_graph" ∷ []),
    )
    ∷ (
      base,
      "MPI_Graphdims_get",
      forward ("comm" ∷ "nnodes" ∷ "nedges" ∷ []) "graphdims_get"
          ("comm" ∷ "nnodes" ∷ "nedges" ∷ []),
    )
    ∷ (
      base,
      "MPI_Graph_get",
      forward ("comm" ∷ "maxindex" ∷ "maxedges" ∷ "index" ∷ "edges" ∷ []) "graph_get"
          ("comm" ∷ "maxindex" ∷ "maxedges" ∷ "index" ∷ "edges" ∷ []),
    )
    ∷ (
      base,
      "MPI_Graph_neighbors_count",
      forward ("comm" ∷ "rank" ∷ "nneighbors" ∷ []) "graph_neighbors_count"
          ("comm" ∷ "rank" ∷ "nneighbors" ∷ []),
    )
    ∷ (
      base,
      "MPI_Graph_neighbors",
      forward ("comm" ∷ "rank" ∷ "maxneighbors" ∷ "neighbors" ∷ []) "graph_neighbors"
          ("comm" ∷ "rank" ∷ "maxneighbors" ∷ "neighbors" ∷ []),
    )
    ∷ (
      base,
      "MPI_Graph_map",
      forward ("comm" ∷ "nnodes" ∷ "index" ∷ "edges" ∷ "newrank" ∷ []) "graph_map"
          ("comm" ∷ "nnodes" ∷ "index" ∷ "edges" ∷ "newrank" ∷ []),
    )
    ∷ (
      base,
      "MPI_Dist_graph_create",
      forward
          ("comm_old" ∷ "n" ∷ "sources" ∷ "degrees" ∷ "destinations" ∷ "weights" ∷ "info"
            ∷ "reorder" ∷ "comm_dist_graph" ∷ [])
          "dist_graph_create"
          ("comm_old" ∷ "n" ∷ "sources" ∷ "degrees" ∷ "destinations" ∷ "weights" ∷ "info"
            ∷ "reorder" ∷ "comm_dist_graph" ∷ []),
    )
    ∷ (
      base,
      "MPI_Dist_graph_create_adjacent",
      forward
          ("comm_old" ∷ "indegree" ∷ "sources" ∷ "sourceweights" ∷ "outdegree" ∷ "destinations"
            ∷ "destweights" ∷ "info" ∷ "reorder" ∷ "comm_dist_graph" ∷ [])
          "dist_graph_create_adjacent"
          ("comm_old" ∷ "indegree" ∷ "sources" ∷ "sourceweights" ∷ "outdegree" ∷ "destinations"
            ∷ "destweights" ∷ "info" ∷ "reorder" ∷ "comm_dist_graph" ∷ []),
    )
    ∷ (
      base,
      "MPI_Dist_graph_neighbors_count",
      forward ("comm" ∷ "indegree" ∷ "outdegree" ∷ "weighted" ∷ []) "dist_graph_neighbors_count"
          ("comm" ∷ "indegree" ∷ "outdegree" ∷ "weighted" ∷ []),
    )
    ∷ (
      base,
      "MPI_Dist_graph_neighbors",
      forward
          ("comm" ∷ "maxindegree" ∷ "sources" ∷ "sourceweights" ∷ "maxoutdegree" ∷ "destinations"
            ∷ "destweights" ∷ [])
          "dist_graph_neighbors"
          ("comm" ∷ "maxindegree" ∷ "sources" ∷ "sourceweights" ∷ "maxoutdegree" ∷ "destinations"
            ∷ "destweights" ∷ []),
    )
    ∷ (base, "MPI_Topo_test", forward ("comm" ∷ "status" ∷ []) "topo_test" ("comm" ∷ "status" ∷ []))
    ∷ (base, "MPI_Win_create", field "win_create")
    ∷ (base, "MPI_Win_free", field "win_free")
    ∷ (mpi_3_0, "MPI_Win_allocate", field "win_allocate")
    ∷ (mpi_3_0, "MPI_Win_allocate_shared", field "win_allocate_shared")
    ∷ (mpi_3_0, "MPI_Win_create_dynamic", field "win_create_dynamic")
    ∷ (base, "MPI_Win_set_name", field "win_set_name")
    ∷ (base, "MPI_Win_get_name", field "win_get_name")
    ∷ (base, "MPI_Put", field "put")
    ∷ (base, "MPI_Get", field "get")
    ∷ (base, "MPI_Accumulate", field "accumulate")
    ∷ (mpi_3_0, "MPI_Get_accumulate", field "get_accumulate")
    ∷ (mpi_3_0, "MPI_Fetch_and_op", field "fetch_and_op")
    ∷ (mpi_3_0, "MPI_Compare_and_swap", field "compare_and_swap")
    ∷ (mpi_3_0, "MPI_Rput", field "rput")
    ∷ (mpi_3_0, "MPI_Rget", field "rget")
    ∷ (mpi_3_0, "MPI_Raccumulate", field "raccumulate")
    ∷ (mpi_3_0, "MPI_Rget_accumulate", field "rget_accumulate")
    ∷ (base, "MPI_Win_fence", field "win_fence")
    ∷ (base, "MPI_Win_lock", field "win_lock")
    ∷ (base, "MPI_Win_unlock", field "win_unlock")
    ∷ (mpi_3_0, "MPI_Win_lock_all", field "win_lock_all")
    ∷ (mpi_3_0, "MPI_Win_unlock_all", field "win_unlock_all")
    ∷ (mpi_3_0, "MPI_Win_flush", field "win_flush")
    ∷ (mpi_3_0, "MPI_Win_flush_all", field "win_flush_all")
    ∷ (mpi_3_0, "MPI_Win_sync", field "win_sync")
    ∷ (mpi_3_0, "MPI_Win_flush_local", field "win_flush_local")
    ∷ (base, "MPI_Win_start", field "win_start")
    ∷ (base, "MPI_Win_complete", field "win_complete")
    ∷ (base, "MPI_Win_post", field "win_post")
    ∷ (base, "MPI_Win_wait", field "win_wait")
    ∷ (base, "MPI_Win_test", field "win_test")
    ∷ (base, "MPI_File_open", field "file_open")
    ∷ (base, "MPI_File_close", field "file_close")
    ∷ (base, "MPI_File_delete", field "file_delete")
    ∷ (base, "MPI_File_set_size", field "file_set_size")
    ∷ (base, "MPI_File_preallocate", field "file_preallocate")
    ∷ (base, "MPI_File_get_size", field "file_get_size")
    ∷ (base, "MPI_File_get_group", field "file_get_group")
    ∷ (base, "MPI_File_get_amode", field "file_get_amode")
    ∷ (base, "MPI_File_get_info", field "file_get_info")
    ∷ (base, "MPI_File_set_info", field "file_set_info")
    ∷ (base, "MPI_File_seek", field "file_seek")
    ∷ (base, "MPI_File_get_position", field "file_get_position")
    ∷ (base, "MPI_File_get_byte_offset", field "file_get_byte_offset")
    ∷ (base, "MPI_File_seek_shared", field "file_seek_shared")
    ∷ (base, "MPI_File_get_position_shared", field "file_get_position_shared")
    ∷ (base, "MPI_File_get_type_extent", field "file_get_type_extent")
    ∷ (base, "MPI_File_read", field "file_read")
    ∷ (base, "MPI_File_read_all", field "file_read_all")
    ∷ (base, "MPI_File_write", field "file_write")
    ∷ (base, "MPI_File_write_all", field "file_write_all")
    ∷ (base, "MPI_File_read_at", field "file_read_at")
    ∷ (base, "MPI_File_read_at_all", field "file_read_at_all")
    ∷ (base, "MPI_File_write_at", field "file_write_at")
    ∷ (base, "MPI_File_write_at_all", field "file_write_at_all")
    ∷ (base, "MPI_File_read_shared", field "file_read_shared")
    ∷ []
