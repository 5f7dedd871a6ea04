-- ===== src/Names/FromFileWriteShared.antt =====
-- The macros of include/unimpi_std_macros.h from `MPI_File_write_shared` on.
use uni_mpi.Base.{List, String, [], ◌∷◌}
use uni_mpi.Vtable.{Gate, base, mpi_3_0}
use uni_mpi.Names.Macro.{Replacement, field, variable}

unfoldable pub macros_from_file_write_shared : List (Gate × String × Replacement)
macros_from_file_write_shared =
    (base, "MPI_File_write_shared", field "file_write_shared")
    ∷ (base, "MPI_File_read_ordered", field "file_read_ordered")
    ∷ (base, "MPI_File_write_ordered", field "file_write_ordered")
    ∷ (base, "MPI_File_read_all_begin", field "file_read_all_begin")
    ∷ (base, "MPI_File_read_all_end", field "file_read_all_end")
    ∷ (base, "MPI_File_read_at_all_begin", field "file_read_at_all_begin")
    ∷ (base, "MPI_File_read_at_all_end", field "file_read_at_all_end")
    ∷ (base, "MPI_File_read_ordered_begin", field "file_read_ordered_begin")
    ∷ (base, "MPI_File_read_ordered_end", field "file_read_ordered_end")
    ∷ (base, "MPI_File_write_all_begin", field "file_write_all_begin")
    ∷ (base, "MPI_File_write_all_end", field "file_write_all_end")
    ∷ (base, "MPI_File_write_at_all_begin", field "file_write_at_all_begin")
    ∷ (base, "MPI_File_write_at_all_end", field "file_write_at_all_end")
    ∷ (base, "MPI_File_write_ordered_begin", field "file_write_ordered_begin")
    ∷ (base, "MPI_File_write_ordered_end", field "file_write_ordered_end")
    ∷ (base, "MPI_File_iread", field "file_iread")
    ∷ (base, "MPI_File_iwrite", field "file_iwrite")
    ∷ (base, "MPI_File_iread_at", field "file_iread_at")
    ∷ (base, "MPI_File_iwrite_at", field "file_iwrite_at")
    ∷ (base, "MPI_File_iread_shared", field "file_iread_shared")
    ∷ (base, "MPI_File_iwrite_shared", field "file_iwrite_shared")
    ∷ (base, "MPI_File_set_view", field "file_set_view")
    ∷ (base, "MPI_File_get_view", field "file_get_view")
    ∷ (base, "MPI_Comm_spawn", field "comm_spawn")
    ∷ (base, "MPI_Comm_spawn_multiple", field "comm_spawn_multiple")
    ∷ (base, "MPI_Comm_accept", field "comm_accept")
    ∷ (base, "MPI_Comm_connect", field "comm_connect")
    ∷ (base, "MPI_Comm_disconnect", field "comm_disconnect")
    ∷ (base, "MPI_Comm_join", field "comm_join")
    ∷ (base, "MPI_Comm_get_parent", field "comm_get_parent")
    ∷ (base, "MPI_Open_port", field "open_port")
    ∷ (base, "MPI_Close_port", field "close_port")
    ∷ (base, "MPI_Publish_name", field "publish_name")
    ∷ (base, "MPI_Unpublish_name", field "unpublish_name")
    ∷ (base, "MPI_Lookup_name", field "lookup_name")
    ∷ (base, "MPI_Info_create", field "info_create")
    ∷ (base, "MPI_Info_free", field "info_free")
    ∷ (base, "MPI_Info_set", field "info_set")
    ∷ (base, "MPI_Info_get", field "info_get")
    ∷ (base, "MPI_Info_delete", field "info_delete")
    ∷ (base, "MPI_Info_get_nkeys", field "info_get_nkeys")
    ∷ (base, "MPI_Info_get_nthkey", field "info_get_nthkey")
    ∷ (base, "MPI_Info_dup", field "info_dup")
    ∷ (base, "MPI_Info_get_valuelen", field "info_get_valuelen")
    ∷ (base, "MPI_THREAD_SINGLE", variable "UNIMPI_THREAD_SINGLE")
    ∷ (base, "MPI_THREAD_FUNNELED", variable "UNIMPI_THREAD_FUNNELED")
    ∷ (base, "MPI_THREAD_SERIALIZED", variable "UNIMPI_THREAD_SERIALIZED")
    ∷ (base, "MPI_THREAD_MULTIPLE", variable "UNIMPI_THREAD_MULTIPLE")
    ∷ (base, "MPI_Query_thread", field "query_thread")
    ∷ (base, "MPI_Is_thread_main", field "is_thread_main")
    ∷ (base, "MPI_Alloc_mem", field "alloc_mem")
    ∷ (base, "MPI_Free_mem", field "free_mem")
    ∷ (base, "MPI_Op_create", field "op_create")
    ∷ (base, "MPI_Op_free", field "op_free")
    ∷ (base, "MPI_Op_commutative", field "op_commutative")
    ∷ (base, "MPI_Status_set_elements", field "status_set_elements")
    ∷ (base, "MPI_Status_set_cancelled", field "status_set_cancelled")
    ∷ (base, "MPI_Status_f2c", field "status_f2c")
    ∷ (base, "MPI_Status_c2f", field "status_c2f")
    ∷ (base, "MPI_Errhandler_create", field "errhandler_create")
    ∷ (base, "MPI_Errhandler_free", field "errhandler_free")
    ∷ (base, "MPI_Errhandler_set", field "errhandler_set")
    ∷ (base, "MPI_Errhandler_get", field "errhandler_get")
    ∷ (base, "MPI_Comm_get_errhandler", field "comm_get_errhandler")
    ∷ (base, "MPI_Comm_set_errhandler", field "comm_set_errhandler")
    ∷ (base, "MPI_Win_get_errhandler", field "win_get_errhandler")
    ∷ (base, "MPI_Win_set_errhandler", field "win_set_errhandler")
    ∷ (base, "MPI_File_get_errhandler", field "file_get_errhandler")
    ∷ (base, "MPI_File_set_errhandler", field "file_set_errhandler")
    ∷ (base, "MPI_Comm_create_errhandler", field "comm_create_errhandler")
    ∷ (base, "MPI_Comm_call_errhandler", field "comm_call_errhandler")
    ∷ (base, "MPI_Win_create_errhandler", field "win_create_errhandler")
    ∷ (base, "MPI_Win_create_keyval", field "win_create_keyval")
    ∷ (base, "MPI_Win_free_keyval", field "win_free_keyval")
    ∷ (base, "MPI_Win_set_attr", field "win_set_attr")
    ∷ (base, "MPI_Win_get_attr", field "win_get_attr")
    ∷ (base, "MPI_Win_delete_attr", field "win_delete_attr")
    ∷ (base, "MPI_Comm_create_keyval", field "comm_create_keyval")
    ∷ (base, "MPI_Comm_free_keyval", field "comm_free_keyval")
    ∷ (base, "MPI_Comm_set_attr", field "comm_set_attr")
    ∷ (base, "MPI_Comm_get_attr", field "comm_get_attr")
    ∷ (base, "MPI_Comm_delete_attr", field "comm_delete_attr")
    ∷ (base, "MPI_Type_create_keyval", field "type_create_keyval")
    ∷ (base, "MPI_Type_free_keyval", field "type_free_keyval")
    ∷ (base, "MPI_Type_set_attr", field "type_set_attr")
    ∷ (base, "MPI_Type_get_attr", field "type_get_attr")
    ∷ (base, "MPI_Type_delete_attr", field "type_delete_attr")
    ∷ (base, "MPI_Keyval_create", field "keyval_create")
    ∷ (base, "MPI_Keyval_free", field "keyval_free")
    ∷ (base, "MPI_Register_datarep", field "register_datarep")
    ∷ (base, "MPI_Win_get_group", field "win_get_group")
    ∷ (base, "MPI_Win_call_errhandler", field "win_call_errhandler")
    ∷ (base, "MPI_File_create_errhandler", field "file_create_errhandler")
    ∷ (base, "MPI_File_set_atomicity", field "file_set_atomicity")
    ∷ (base, "MPI_File_get_atomicity", field "file_get_atomicity")
    ∷ (base, "MPI_File_sync", field "file_sync")
    ∷ (base, "MPI_File_call_errhandler", field "file_call_errhandler")
    ∷ (base, "MPI_File_set_errhandler", field "file_set_errhandler")
    ∷ (base, "MPI_File_get_errhandler", field "file_get_errhandler")
    ∷ (base, "MPI_Add_error_class", field "add_error_class")
    ∷ (base, "MPI_Add_error_code", field "add_error_code")
    ∷ (base, "MPI_Add_error_string", field "add_error_string")
    ∷ (base, "MPI_Error_class", field "error_class")
    ∷ (base, "MPI_Error_string", field "error_string")
    ∷ (base, "MPI_Pcontrol", field "pcontrol")
    ∷ (base, "MPI_Attr_put", field "attr_put")
    ∷ (base, "MPI_Attr_get", field "attr_get")
    ∷ (base, "MPI_Attr_delete", field "attr_delete")
    ∷ (mpi_3_0, "MPI_Win_attach", field "win_attach")
    ∷ (mpi_3_0, "MPI_Win_detach", field "win_detach")
    ∷ (mpi_3_0, "MPI_Win_shared_query", field "win_shared_query")
    ∷ (mpi_3_0, "MPI_Win_flush_local_all", field "win_flush_local_all")
    ∷ (mpi_3_0, "MPI_Win_get_info", field "win_get_info")
    ∷ (mpi_3_0, "MPI_Win_set_info", field "win_set_info")
    ∷ (mpi_3_0, "MPI_Type_size_x", field "type_size_x")
    ∷ []
