-- ===== src/Fields/FromFileWriteOrdered.antt =====
-- The fields of `unimpi_vtable_t` in include/unimpi_vtable.h from `file_write_ordered` on.
use uni_mpi.Base.{String, List, [], ◌∷◌}
use uni_mpi.Vtable.{Gate, base, mpi_3_1}

unfoldable pub fields_from_file_write_ordered : List (Gate × String)
fields_from_file_write_ordered =
    (base, "file_write_ordered")
    ∷ (base, "file_read_all_begin")
    ∷ (base, "file_read_all_end")
    ∷ (base, "file_read_at_all_begin")
    ∷ (base, "file_read_at_all_end")
    ∷ (base, "file_read_ordered_begin")
    ∷ (base, "file_read_ordered_end")
    ∷ (base, "file_write_all_begin")
    ∷ (base, "file_write_all_end")
    ∷ (base, "file_write_at_all_begin")
    ∷ (base, "file_write_at_all_end")
    ∷ (base, "file_write_ordered_begin")
    ∷ (base, "file_write_ordered_end")
    ∷ (base, "file_iread")
    ∷ (base, "file_iwrite")
    ∷ (base, "file_iread_at")
    ∷ (base, "file_iwrite_at")
    ∷ (base, "file_iread_shared")
    ∷ (base, "file_iwrite_shared")
    ∷ (mpi_3_1, "file_iread_all")
    ∷ (mpi_3_1, "file_iwrite_all")
    ∷ (mpi_3_1, "file_iread_at_all")
    ∷ (mpi_3_1, "file_iwrite_at_all")
    ∷ (base, "file_set_view")
    ∷ (base, "file_get_view")
    ∷ (base, "comm_spawn")
    ∷ (base, "comm_spawn_multiple")
    ∷ (base, "comm_accept")
    ∷ (base, "comm_connect")
    ∷ (base, "comm_disconnect")
    ∷ (base, "comm_join")
    ∷ (base, "comm_get_parent")
    ∷ (base, "open_port")
    ∷ (base, "close_port")
    ∷ (base, "publish_name")
    ∷ (base, "unpublish_name")
    ∷ (base, "lookup_name")
    ∷ (base, "info_create")
    ∷ (base, "info_free")
    ∷ (base, "info_set")
    ∷ (base, "info_get")
    ∷ (base, "info_delete")
    ∷ (base, "info_get_nkeys")
    ∷ (base, "info_get_nthkey")
    ∷ (base, "info_dup")
    ∷ (base, "info_get_valuelen")
    ∷ (base, "init_thread")
    ∷ (base, "query_thread")
    ∷ (base, "is_thread_main")
    ∷ (base, "alloc_mem")
    ∷ (base, "free_mem")
    ∷ (mpi_3_1, "aint_add")
    ∷ (mpi_3_1, "aint_diff")
    ∷ (mpi_3_1, "comm_idup")
    ∷ (base, "op_create")
    ∷ (base, "op_free")
    ∷ (base, "op_commutative")
    ∷ (base, "status_set_elements")
    ∷ (base, "status_set_cancelled")
    ∷ (base, "status_f2c")
    ∷ (base, "status_c2f")
    ∷ (base, "status_get_source")
    ∷ (base, "status_get_tag")
    ∷ (base, "status_get_error")
    ∷ (base, "errhandler_create")
    ∷ (base, "errhandler_free")
    ∷ (base, "errhandler_set")
    ∷ (base, "errhandler_get")
    ∷ (base, "comm_get_errhandler")
    ∷ (base, "comm_set_errhandler")
    ∷ (base, "win_get_errhandler")
    ∷ (base, "win_set_errhandler")
    ∷ (base, "comm_create_errhandler")
    ∷ (base, "comm_call_errhandler")
    ∷ (base, "win_create_errhandler")
    ∷ (base, "win_create_keyval")
    ∷ (base, "win_free_keyval")
    ∷ (base, "win_set_attr")
    ∷ (base, "win_get_attr")
    ∷ (base, "win_delete_attr")
    ∷ (base, "comm_create_keyval")
    ∷ (base, "comm_free_keyval")
    ∷ (base, "comm_set_attr")
    ∷ (base, "comm_get_attr")
    ∷ (base, "comm_delete_attr")
    ∷ (base, "type_create_keyval")
    ∷ (base, "type_free_keyval")
    ∷ (base, "type_set_attr")
    ∷ (base, "type_get_attr")
    ∷ (base, "type_delete_attr")
    ∷ (base, "keyval_create")
    ∷ []
