-- ===== src/Backends/Openmpi/FromCart.antt =====
-- The statements of `unimpi_vtable_init_openmpi` in src/backends/openmpi.c
-- from `UNIMPI_CART` on.
use uni_mpi.Base.{[], ◌∷◌}
use uni_mpi.Base.Int.{pos}
use uni_mpi.Vtable.{Program, base, mpi_3_0, mpi_3_1, assign, bind_mt}

unfoldable pub from_cart : Program
from_cart =
    (base, assign "UNIMPI_CART" (pos 1))
    ∷ (base, assign "UNIMPI_GRAPH" (pos 2))
    ∷ (base, assign "UNIMPI_DIST_GRAPH" (pos 3))
    ∷ (mpi_3_0, bind_mt "t_init_thread" "MPI_T_init_thread")
    ∷ (mpi_3_0, bind_mt "t_finalize" "MPI_T_finalize")
    ∷ (mpi_3_0, bind_mt "t_cvar_get_num" "MPI_T_cvar_get_num")
    ∷ (mpi_3_0, bind_mt "t_cvar_get_info" "MPI_T_cvar_get_info")
    ∷ (mpi_3_0, bind_mt "t_cvar_handle_alloc" "MPI_T_cvar_handle_alloc")
    ∷ (mpi_3_0, bind_mt "t_cvar_handle_free" "MPI_T_cvar_handle_free")
    ∷ (mpi_3_0, bind_mt "t_cvar_read" "MPI_T_cvar_read")
    ∷ (mpi_3_0, bind_mt "t_cvar_read_index" "MPI_T_cvar_read_index")
    ∷ (mpi_3_0, bind_mt "t_cvar_write" "MPI_T_cvar_write")
    ∷ (mpi_3_0, bind_mt "t_cvar_write_index" "MPI_T_cvar_write_index")
    ∷ (mpi_3_0, bind_mt "t_pvar_get_num" "MPI_T_pvar_get_num")
    ∷ (mpi_3_0, bind_mt "t_pvar_get_info" "MPI_T_pvar_get_info")
    ∷ (mpi_3_0, bind_mt "t_pvar_session_create" "MPI_T_pvar_session_create")
    ∷ (mpi_3_0, bind_mt "t_pvar_session_free" "MPI_T_pvar_session_free")
    ∷ (mpi_3_0, bind_mt "t_pvar_handle_alloc" "MPI_T_pvar_handle_alloc")
    ∷ (mpi_3_0, bind_mt "t_pvar_handle_free" "MPI_T_pvar_handle_free")
    ∷ (mpi_3_0, bind_mt "t_pvar_start" "MPI_T_pvar_start")
    ∷ (mpi_3_0, bind_mt "t_pvar_stop" "MPI_T_pvar_stop")
    ∷ (mpi_3_0, bind_mt "t_pvar_read" "MPI_T_pvar_read")
    ∷ (mpi_3_0, bind_mt "t_pvar_write" "MPI_T_pvar_write")
    ∷ (mpi_3_0, bind_mt "t_pvar_readreset" "MPI_T_pvar_readreset")
    ∷ (mpi_3_0, bind_mt "t_pvar_reset" "MPI_T_pvar_reset")
    ∷ (mpi_3_0, bind_mt "t_pvar_aggregate" "MPI_T_pvar_aggregate")
    ∷ (mpi_3_0, bind_mt "t_category_get_num" "MPI_T_category_get_num")
    ∷ (mpi_3_0, bind_mt "t_category_get_info" "MPI_T_category_get_info")
    ∷ (mpi_3_0, bind_mt "t_category_get_cvars" "MPI_T_category_get_cvars")
    ∷ (mpi_3_0, bind_mt "t_category_get_pvars" "MPI_T_category_get_pvars")
    ∷ (mpi_3_0, bind_mt "t_category_get_categories" "MPI_T_category_get_categories")
    ∷ (mpi_3_0, bind_mt "t_category_changed" "MPI_T_category_changed")
    ∷ (mpi_3_0, bind_mt "t_enum_get_info" "MPI_T_enum_get_info")
    ∷ (mpi_3_0, bind_mt "t_enum_get_item" "MPI_T_enum_get_item")
    ∷ (mpi_3_0, assign "MPI_T_ERR_MEMORY" (pos 54))
    ∷ (mpi_3_0, assign "MPI_T_ERR_NOT_INITIALIZED" (pos 55))
    ∷ (mpi_3_0, assign "MPI_T_ERR_CANNOT_INIT" (pos 56))
    ∷ (mpi_3_0, assign "MPI_T_ERR_INVALID_INDEX" (pos 57))
    ∷ (mpi_3_0, assign "MPI_T_ERR_INVALID_ITEM" (pos 58))
    ∷ (mpi_3_0, assign "MPI_T_ERR_INVALID_HANDLE" (pos 59))
    ∷ (mpi_3_0, assign "MPI_T_ERR_OUT_OF_HANDLES" (pos 60))
    ∷ (mpi_3_0, assign "MPI_T_ERR_OUT_OF_SESSIONS" (pos 61))
    ∷ (mpi_3_0, assign "MPI_T_ERR_INVALID_SESSION" (pos 62))
    ∷ (mpi_3_0, assign "MPI_T_ERR_CVAR_SET_NOT_NOW" (pos 63))
    ∷ (mpi_3_0, assign "MPI_T_ERR_CVAR_SET_NEVER" (pos 64))
    ∷ (mpi_3_0, assign "MPI_T_ERR_PVAR_NO_STARTSTOP" (pos 65))
    ∷ (mpi_3_0, assign "MPI_T_ERR_PVAR_NO_WRITE" (pos 66))
    ∷ (mpi_3_0, assign "MPI_T_ERR_PVAR_NO_ATOMIC" (pos 67))
    ∷ (mpi_3_0, assign "MPI_T_ERR_INVALID" (pos 72))
    ∷ (mpi_3_0, assign "MPI_T_ERR_INVALID_NAME" (pos 73))
    ∷ (mpi_3_0, assign "UNIMPI_T_VERBOSITY_USER_BASIC" (pos 0))
    ∷ (mpi_3_0, assign "UNIMPI_T_VERBOSITY_USER_DETAIL" (pos 1))
    ∷ (mpi_3_0, assign "UNIMPI_T_VERBOSITY_USER_ALL" (pos 2))
    ∷ (mpi_3_0, assign "UNIMPI_T_VERBOSITY_TUNER_BASIC" (pos 3))
    ∷ (mpi_3_0, assign "UNIMPI_T_VERBOSITY_TUNER_DETAIL" (pos 4))
    ∷ (mpi_3_0, assign "UNIMPI_T_VERBOSITY_TUNER_ALL" (pos 5))
    ∷ (mpi_3_0, assign "UNIMPI_T_VERBOSITY_MPIDEV_BASIC" (pos 6))
    ∷ (mpi_3_0, assign "UNIMPI_T_VERBOSITY_MPIDEV_DETAIL" (pos 7))
    ∷ (mpi_3_0, assign "UNIMPI_T_VERBOSITY_MPIDEV_ALL" (pos 8))
    ∷ (mpi_3_0, assign "UNIMPI_T_SCOPE_CONSTANT" (pos 0))
    ∷ (mpi_3_0, assign "UNIMPI_T_SCOPE_READONLY" (pos 1))
    ∷ (mpi_3_0, assign "UNIMPI_T_SCOPE_LOCAL" (pos 2))
    ∷ (mpi_3_0, assign "UNIMPI_T_SCOPE_GROUP" (pos 3))
    ∷ (mpi_3_0, assign "UNIMPI_T_SCOPE_GROUP_EQ" (pos 4))
    ∷ (mpi_3_0, assign "UNIMPI_T_SCOPE_ALL" (pos 5))
    ∷ (mpi_3_0, assign "UNIMPI_T_SCOPE_ALL_EQ" (pos 6))
    ∷ (mpi_3_0, assign "UNIMPI_T_BIND_NO_OBJECT" (pos 0))
    ∷ (mpi_3_0, assign "UNIMPI_T_BIND_MPI_COMM" (pos 1))
    ∷ (mpi_3_0, assign "UNIMPI_T_BIND_MPI_DATATYPE" (pos 2))
    ∷ (mpi_3_0, assign "UNIMPI_T_BIND_MPI_ERRHANDLER" (pos 3))
    ∷ (mpi_3_0, assign "UNIMPI_T_BIND_MPI_FILE" (pos 4))
    ∷ (mpi_3_0, assign "UNIMPI_T_BIND_MPI_GROUP" (pos 5))
    ∷ (mpi_3_0, assign "UNIMPI_T_BIND_MPI_OP" (pos 6))
    ∷ (mpi_3_0, assign "UNIMPI_T_BIND_MPI_REQUEST" (pos 7))
    ∷ (mpi_3_0, assign "UNIMPI_T_BIND_MPI_WIN" (pos 8))
    ∷ (mpi_3_0, assign "UNIMPI_T_BIND_MPI_MESSAGE" (pos 9))
    ∷ (mpi_3_0, assign "UNIMPI_T_BIND_MPI_INFO" (pos 10))
    ∷ (mpi_3_0, assign "UNIMPI_T_PVAR_CLASS_STATE" (pos 0))
    ∷ (mpi_3_0, assign "UNIMPI_T_PVAR_CLASS_LEVEL" (pos 1))
    ∷ (mpi_3_0, assign "UNIMPI_T_PVAR_CLASS_SIZE" (pos 2))
    ∷ (mpi_3_0, assign "UNIMPI_T_PVAR_CLASS_PERCENTAGE" (pos 3))
    ∷ (mpi_3_0, assign "UNIMPI_T_PVAR_CLASS_HIGHWATERMARK" (pos 4))
    ∷ (mpi_3_0, assign "UNIMPI_T_PVAR_CLASS_LOWWATERMARK" (pos 5))
    ∷ (mpi_3_0, assign "UNIMPI_T_PVAR_CLASS_COUNTER" (pos 6))
    ∷ (mpi_3_0, assign "UNIMPI_T_PVAR_CLASS_AGGREGATE" (pos 7))
    ∷ (mpi_3_0, assign "UNIMPI_T_PVAR_CLASS_TIMER" (pos 8))
    ∷ (mpi_3_0, assign "UNIMPI_T_PVAR_CLASS_GENERIC" (pos 9))
    ∷ (mpi_3_1, bind_mt "t_cvar_get_index" "MPI_T_cvar_get_index")
    ∷ (mpi_3_1, bind_mt "t_pvar_get_index" "MPI_T_pvar_get_index")
    ∷ (mpi_3_1, bind_mt "t_category_get_index" "MPI_T_category_get_index")
    ∷ []
