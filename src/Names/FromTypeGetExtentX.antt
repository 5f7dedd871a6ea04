-- ===== src/Names/FromTypeGetExtentX.antt =====
-- The macros of include/unimpi_std_macros.h from `MPI_Type_get_extent_x` on.
use uni_mpi.Base.{List, String, [], ◌∷◌}
use uni_mpi.Vtable.{Gate, mpi_3_0, mpi_3_1}
use uni_mpi.Names.Macro.{Replacement, field, function, mt_field, variable}

unfoldable pub macros_from_type_get_extent_x : List (Gate × String × Replacement)
macros_from_type_get_extent_x =
    (mpi_3_0, "MPI_Type_get_extent_x", field "type_get_extent_x")
    ∷ (mpi_3_0, "MPI_Type_get_true_extent_x", field "type_get_true_extent_x")
    ∷ (mpi_3_0, "MPI_Type_create_hindexed_block", field "type_create_hindexed_block")
    ∷ (mpi_3_0, "MPI_Get_elements_x", field "get_elements_x")
    ∷ (mpi_3_0, "MPI_Status_set_elements_x", field "status_set_elements_x")
    ∷ (mpi_3_0, "MPI_T_init_thread", function "unimpi_mpit_init_thread")
    ∷ (mpi_3_0, "MPI_T_finalize", function "unimpi_mpit_finalize")
    ∷ (mpi_3_0, "MPI_T_cvar_get_num", mt_field "t_cvar_get_num")
    ∷ (mpi_3_0, "MPI_T_cvar_get_info", mt_field "t_cvar_get_info")
    ∷ (mpi_3_0, "MPI_T_cvar_handle_alloc", mt_field "t_cvar_handle_alloc")
    ∷ (mpi_3_0, "MPI_T_cvar_handle_free", mt_field "t_cvar_handle_free")
    ∷ (mpi_3_0, "MPI_T_cvar_read", mt_field "t_cvar_read")
    ∷ (mpi_3_0, "MPI_T_cvar_read_index", mt_field "t_cvar_read_index")
    ∷ (mpi_3_0, "MPI_T_cvar_write", mt_field "t_cvar_write")
    ∷ (mpi_3_0, "MPI_T_cvar_write_index", mt_field "t_cvar_write_index")
    ∷ (mpi_3_0, "MPI_T_pvar_get_num", mt_field "t_pvar_get_num")
    ∷ (mpi_3_0, "MPI_T_pvar_get_info", mt_field "t_pvar_get_info")
    ∷ (mpi_3_0, "MPI_T_pvar_session_create", mt_field "t_pvar_session_create")
    ∷ (mpi_3_0, "MPI_T_pvar_session_free", mt_field "t_pvar_session_free")
    ∷ (mpi_3_0, "MPI_T_pvar_handle_alloc", mt_field "t_pvar_handle_alloc")
    ∷ (mpi_3_0, "MPI_T_pvar_handle_free", mt_field "t_pvar_handle_free")
    ∷ (mpi_3_0, "MPI_T_pvar_start", mt_field "t_pvar_start")
    ∷ (mpi_3_0, "MPI_T_pvar_stop", mt_field "t_pvar_stop")
    ∷ (mpi_3_0, "MPI_T_pvar_read", mt_field "t_pvar_read")
    ∷ (mpi_3_0, "MPI_T_pvar_write", mt_field "t_pvar_write")
    ∷ (mpi_3_0, "MPI_T_pvar_readreset", mt_field "t_pvar_readreset")
    ∷ (mpi_3_0, "MPI_T_pvar_reset", mt_field "t_pvar_reset")
    ∷ (mpi_3_0, "MPI_T_pvar_aggregate", mt_field "t_pvar_aggregate")
    ∷ (mpi_3_0, "MPI_T_category_get_num", mt_field "t_category_get_num")
    ∷ (mpi_3_0, "MPI_T_category_get_info", mt_field "t_category_get_info")
    ∷ (mpi_3_0, "MPI_T_category_get_cvars", mt_field "t_category_get_cvars")
    ∷ (mpi_3_0, "MPI_T_category_get_pvars", mt_field "t_category_get_pvars")
    ∷ (mpi_3_0, "MPI_T_category_get_categories", mt_field "t_category_get_categories")
    ∷ (mpi_3_0, "MPI_T_category_changed", mt_field "t_category_changed")
    ∷ (mpi_3_0, "MPI_T_enum_get_info", mt_field "t_enum_get_info")
    ∷ (mpi_3_0, "MPI_T_enum_get_item", mt_field "t_enum_get_item")
    ∷ (mpi_3_0, "MPI_T_PVAR_CLASS_STATE", variable "UNIMPI_T_PVAR_CLASS_STATE")
    ∷ (mpi_3_0, "MPI_T_PVAR_CLASS_LEVEL", variable "UNIMPI_T_PVAR_CLASS_LEVEL")
    ∷ (mpi_3_0, "MPI_T_PVAR_CLASS_SIZE", variable "UNIMPI_T_PVAR_CLASS_SIZE")
    ∷ (mpi_3_0, "MPI_T_PVAR_CLASS_PERCENTAGE", variable "UNIMPI_T_PVAR_CLASS_PERCENTAGE")
    ∷ (mpi_3_0, "MPI_T_PVAR_CLASS_HIGHWATERMARK", variable "UNIMPI_T_PVAR_CLASS_HIGHWATERMARK")
    ∷ (mpi_3_0, "MPI_T_PVAR_CLASS_LOWWATERMARK", variable "UNIMPI_T_PVAR_CLASS_LOWWATERMARK")
    ∷ (mpi_3_0, "MPI_T_PVAR_CLASS_COUNTER", variable "UNIMPI_T_PVAR_CLASS_COUNTER")
    ∷ (mpi_3_0, "MPI_T_PVAR_CLASS_AGGREGATE", variable "UNIMPI_T_PVAR_CLASS_AGGREGATE")
    ∷ (mpi_3_0, "MPI_T_PVAR_CLASS_TIMER", variable "UNIMPI_T_PVAR_CLASS_TIMER")
    ∷ (mpi_3_0, "MPI_T_PVAR_CLASS_GENERIC", variable "UNIMPI_T_PVAR_CLASS_GENERIC")
    ∷ (mpi_3_0, "MPI_T_PVAR_CLASS_INVALID", variable "UNIMPI_T_PVAR_CLASS_INVALID")
    ∷ (mpi_3_0, "MPI_T_BIND_NO_OBJECT", variable "UNIMPI_T_BIND_NO_OBJECT")
    ∷ (mpi_3_0, "MPI_T_BIND_MPI_COMM", variable "UNIMPI_T_BIND_MPI_COMM")
    ∷ (mpi_3_0, "MPI_T_BIND_MPI_DATATYPE", variable "UNIMPI_T_BIND_MPI_DATATYPE")
    ∷ (mpi_3_0, "MPI_T_BIND_MPI_ERRHANDLER", variable "UNIMPI_T_BIND_MPI_ERRHANDLER")
    ∷ (mpi_3_0, "MPI_T_BIND_MPI_FILE", variable "UNIMPI_T_BIND_MPI_FILE")
    ∷ (mpi_3_0, "MPI_T_BIND_MPI_GROUP", variable "UNIMPI_T_BIND_MPI_GROUP")
    ∷ (mpi_3_0, "MPI_T_BIND_MPI_OP", variable "UNIMPI_T_BIND_MPI_OP")
    ∷ (mpi_3_0, "MPI_T_BIND_MPI_REQUEST", variable "UNIMPI_T_BIND_MPI_REQUEST")
    ∷ (mpi_3_0, "MPI_T_BIND_MPI_WIN", variable "UNIMPI_T_BIND_MPI_WIN")
    ∷ (mpi_3_0, "MPI_T_BIND_MPI_MESSAGE", variable "UNIMPI_T_BIND_MPI_MESSAGE")
    ∷ (mpi_3_0, "MPI_T_BIND_MPI_INFO", variable "UNIMPI_T_BIND_MPI_INFO")
    ∷ (mpi_3_0, "MPI_T_BIND_MPI_SESSION", variable "UNIMPI_T_BIND_MPI_SESSION")
    ∷ (mpi_3_0, "MPI_T_BIND_INVALID", variable "UNIMPI_T_BIND_INVALID")
    ∷ (mpi_3_0, "MPI_T_SCOPE_CONSTANT", variable "UNIMPI_T_SCOPE_CONSTANT")
    ∷ (mpi_3_0, "MPI_T_SCOPE_READONLY", variable "UNIMPI_T_SCOPE_READONLY")
    ∷ (mpi_3_0, "MPI_T_SCOPE_LOCAL", variable "UNIMPI_T_SCOPE_LOCAL")
    ∷ (mpi_3_0, "MPI_T_SCOPE_GROUP", variable "UNIMPI_T_SCOPE_GROUP")
    ∷ (mpi_3_0, "MPI_T_SCOPE_GROUP_EQ", variable "UNIMPI_T_SCOPE_GROUP_EQ")
    ∷ (mpi_3_0, "MPI_T_SCOPE_ALL", variable "UNIMPI_T_SCOPE_ALL")
    ∷ (mpi_3_0, "MPI_T_SCOPE_ALL_EQ", variable "UNIMPI_T_SCOPE_ALL_EQ")
    ∷ (mpi_3_0, "MPI_T_SCOPE_INVALID", variable "UNIMPI_T_SCOPE_INVALID")
    ∷ (mpi_3_0, "MPI_T_SOURCE_ORDINARY", variable "UNIMPI_T_SOURCE_ORDINARY")
    ∷ (mpi_3_0, "MPI_T_SOURCE_DISTRIBUTED", variable "UNIMPI_T_SOURCE_DISTRIBUTED")
    ∷ (mpi_3_0, "MPI_T_VERBOSITY_USER_BASIC", variable "UNIMPI_T_VERBOSITY_USER_BASIC")
    ∷ (mpi_3_0, "MPI_T_VERBOSITY_USER_DETAIL", variable "UNIMPI_T_VERBOSITY_USER_DETAIL")
    ∷ (mpi_3_0, "MPI_T_VERBOSITY_USER_ALL", variable "UNIMPI_T_VERBOSITY_USER_ALL")
    ∷ (mpi_3_0, "MPI_T_VERBOSITY_TUNER_BASIC", variable "UNIMPI_T_VERBOSITY_TUNER_BASIC")
    ∷ (mpi_3_0, "MPI_T_VERBOSITY_TUNER_DETAIL", variable "UNIMPI_T_VERBOSITY_TUNER_DETAIL")
    ∷ (mpi_3_0, "MPI_T_VERBOSITY_TUNER_ALL", variable "UNIMPI_T_VERBOSITY_TUNER_ALL")
    ∷ (mpi_3_0, "MPI_T_VERBOSITY_MPIDEV_BASIC", variable "UNIMPI_T_VERBOSITY_MPIDEV_BASIC")
    ∷ (mpi_3_0, "MPI_T_VERBOSITY_MPIDEV_DETAIL", variable "UNIMPI_T_VERBOSITY_MPIDEV_DETAIL")
    ∷ (mpi_3_0, "MPI_T_VERBOSITY_MPIDEV_ALL", variable "UNIMPI_T_VERBOSITY_MPIDEV_ALL")
    ∷ (mpi_3_0, "MPI_T_VERBOSITY_INVALID", variable "UNIMPI_T_VERBOSITY_INVALID")
    ∷ (mpi_3_0, "MPI_T_PVAR_HANDLE_NULL", variable "UNIMPI_T_PVAR_HANDLE_NULL")
    ∷ (mpi_3_0, "MPI_T_CVAR_HANDLE_NULL", variable "UNIMPI_T_CVAR_HANDLE_NULL")
    ∷ (mpi_3_0, "MPI_T_PVAR_SESSION_NULL", variable "UNIMPI_T_PVAR_SESSION_NULL")
    ∷ (mpi_3_1, "MPI_T_cvar_get_index", mt_field "t_cvar_get_index")
    ∷ (mpi_3_1, "MPI_T_pvar_get_index", mt_field "t_pvar_get_index")
    ∷ (mpi_3_1, "MPI_T_category_get_index", mt_field "t_category_get_index")
    ∷ (mpi_3_1, "MPI_Aint_add", field "aint_add")
    ∷ (mpi_3_1, "MPI_Aint_diff", field "aint_diff")
    ∷ (mpi_3_1, "MPI_File_iread_all", field "file_iread_all")
    ∷ (mpi_3_1, "MPI_File_iwrite_all", field "file_iwrite_all")
    ∷ (mpi_3_1, "MPI_File_iread_at_all", field "file_iread_at_all")
    ∷ (mpi_3_1, "MPI_File_iwrite_at_all", field "file_iwrite_at_all")
    ∷ (mpi_3_1, "MPI_Comm_idup", field "comm_idup")
    ∷ []
