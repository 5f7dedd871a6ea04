-- ===== src/Backends/Msmpi/FromGraph.antt =====
-- The statements of `unimpi_vtable_init_msmpi` in src/backends/msmpi.c
-- from `UNIMPI_GRAPH` on.
use uni_mpi.Base.{[], ◌∷◌}
use uni_mpi.Base.Int.{pos}
use uni_mpi.Vtable.{Program, base, mpi_3_0, mpi_3_1, assign, bind_mt}

unfoldable pub from_graph : Program
from_graph =
    (base, assign "UNIMPI_GRAPH" (pos 1))
    ∷ (base, assign "UNIMPI_CART" (pos 2))
    ∷ (base, assign "UNIMPI_DIST_GRAPH" (pos 3))
    ∷ (mpi_3_0, bind_mt "t_init_thread" "MPI_T_init_thread")
    ∷ (mpi_3_0, bind_mt "t_finalize" "MPI_T_finalize")
    ∷ (mpi_3_0, bind_mt "t_cvar_get_num" "MPI_T_cvar_get_num")
    ∷ (mpi_3_0, bind_mt "t_cvar_get_info" "MPI_T_cvar_get_info")
    ∷ (mpi_3_0, bind_mt "t_cvar_handle_alloc" "MPI_T_cvar_handle_alloc")
    ∷ (mpi_3_0, bind_mt "t_cvar_handle_free" "MPI_T_cvar_handle_free")
    ∷ (mpi_3_0, bind_mt "t_cvar_read" "MPI_T_cvar_read")
    ∷ (mpi_3_0, bind_mt "t_cvar_read_index" "MPI_T_cvar_read_index")
    ∷ (mpi_3_0, bind_mt "t_cvar_write" "MPI_T_cvar_write")
    ∷ (mpi_3_0, bind_mt "t_cvar_write_index" "MPI_T_cvar_write_index")
    ∷ (mpi_3_0, bind_mt "t_pvar_get_num" "MPI_T_pvar_get_num")
    ∷ (mpi_3_0, bind_mt "t_pvar_get_info" "MPI_T_pvar_get_info")
    ∷ (mpi_3_0, bind_mt "t_pvar_session_create" "MPI_T_pvar_session_create")
    ∷ (mpi_3_0, bind_mt "t_pvar_session_free" "MPI_T_pvar_session_free")
    ∷ (mpi_3_0, bind_mt "t_pvar_handle_alloc" "MPI_T_pvar_handle_alloc")
    ∷ (mpi_3_0, bind_mt "t_pvar_handle_free" "MPI_T_pvar_handle_free")
    ∷ (mpi_3_0, bind_mt "t_pvar_start" "MPI_T_pvar_start")
    ∷ (mpi_3_0, bind_mt "t_pvar_stop" "MPI_T_pvar_stop")
    ∷ (mpi_3_0, bind_mt "t_pvar_read" "MPI_T_pvar_read")
    ∷ (mpi_3_0, bind_mt "t_pvar_write" "MPI_T_pvar_write")
    ∷ (mpi_3_0, bind_mt "t_pvar_readreset" "MPI_T_pvar_readreset")
    ∷ (mpi_3_0, bind_mt "t_pvar_reset" "MPI_T_pvar_reset")
    ∷ (mpi_3_0, bind_mt "t_pvar_aggregate" "MPI_T_pvar_aggregate")
    ∷ (mpi_3_0, bind_mt "t_category_get_num" "MPI_T_category_get_num")
    ∷ (mpi_3_0, bind_mt "t_category_get_info" "MPI_T_category_get_info")
    ∷ (mpi_3_0, bind_mt "t_category_get_cvars" "MPI_T_category_get_cvars")
    ∷ (mpi_3_0, bind_mt "t_category_get_pvars" "MPI_T_category_get_pvars")
    ∷ (mpi_3_0, bind_mt "t_category_get_categories" "MPI_T_category_get_categories")
    ∷ (mpi_3_0, bind_mt "t_category_changed" "MPI_T_category_changed")
    ∷ (mpi_3_0, bind_mt "t_enum_get_info" "MPI_T_enum_get_info")
    ∷ (mpi_3_0, bind_mt "t_enum_get_item" "MPI_T_enum_get_item")
    ∷ (mpi_3_0, assign "MPI_T_ERR_MEMORY" (pos 59))
    ∷ (mpi_3_0, assign "MPI_T_ERR_NOT_INITIALIZED" (pos 60))
    ∷ (mpi_3_0, assign "MPI_T_ERR_CANNOT_INIT" (pos 61))
    ∷ (mpi_3_0, assign "MPI_T_ERR_INVALID_INDEX" (pos 62))
    ∷ (mpi_3_0, assign "MPI_T_ERR_INVALID_ITEM" (pos 63))
    ∷ (mpi_3_0, assign "MPI_T_ERR_INVALID_HANDLE" (pos 64))
    ∷ (mpi_3_0, assign "MPI_T_ERR_OUT_OF_HANDLES" (pos 65))
    ∷ (mpi_3_0, assign "MPI_T_ERR_OUT_OF_SESSIONS" (pos 66))
    ∷ (mpi_3_0, assign "MPI_T_ERR_INVALID_SESSION" (pos 67))
    ∷ (mpi_3_0, assign "MPI_T_ERR_CVAR_SET_NOT_NOW" (pos 68))
    ∷ (mpi_3_0, assign "MPI_T_ERR_CVAR_SET_NEVER" (pos 69))
    ∷ (mpi_3_0, assign "MPI_T_ERR_PVAR_NO_STARTSTOP" (pos 70))
    ∷ (mpi_3_0, assign "MPI_T_ERR_PVAR_NO_WRITE" (pos 71))
    ∷ (mpi_3_0, assign "MPI_T_ERR_PVAR_NO_ATOMIC" (pos 72))
    ∷ (mpi_3_0, assign "MPI_T_ERR_INVALID_NAME" (pos 73))
    ∷ (mpi_3_0, assign "MPI_T_ERR_INVALID" (pos 74))
    ∷ (mpi_3_0, assign "MPI_T_ERR_NOT_SUPPORTED" (pos 78))
    ∷ (mpi_3_0, assign "UNIMPI_T_VERBOSITY_USER_BASIC" (pos 221))
    ∷ (mpi_3_0, assign "UNIMPI_T_VERBOSITY_USER_DETAIL" (pos 222))
    ∷ (mpi_3_0, assign "UNIMPI_T_VERBOSITY_USER_ALL" (pos 223))
    ∷ (mpi_3_0, assign "UNIMPI_T_VERBOSITY_TUNER_BASIC" (pos 224))
    ∷ (mpi_3_0, assign "UNIMPI_T_VERBOSITY_TUNER_DETAIL" (pos 225))
    ∷ (mpi_3_0, assign "UNIMPI_T_VERBOSITY_TUNER_ALL" (pos 226))
    ∷ (mpi_3_0, assign "UNIMPI_T_VERBOSITY_MPIDEV_BASIC" (pos 227))
    ∷ (mpi_3_0, assign "UNIMPI_T_VERBOSITY_MPIDEV_DETAIL" (pos 228))
    ∷ (mpi_3_0, assign "UNIMPI_T_VERBOSITY_MPIDEV_ALL" (pos 229))
    ∷ (mpi_3_0, assign "UNIMPI_T_SCOPE_CONSTANT" (pos 60438))
    ∷ (mpi_3_0, assign "UNIMPI_T_SCOPE_READONLY" (pos 60439))
    ∷ (mpi_3_0, assign "UNIMPI_T_SCOPE_LOCAL" (pos 60440))
    ∷ (mpi_3_0, assign "UNIMPI_T_SCOPE_GROUP" (pos 60441))
    ∷ (mpi_3_0, assign "UNIMPI_T_SCOPE_GROUP_EQ" (pos 60442))
    ∷ (mpi_3_0, assign "UNIMPI_T_SCOPE_ALL" (pos 60443))
    ∷ (mpi_3_0, assign "UNIMPI_T_SCOPE_ALL_EQ" (pos 60444))
    ∷ (mpi_3_0, assign "UNIMPI_T_BIND_NO_OBJECT" (pos 9700))
    ∷ (mpi_3_0, assign "UNIMPI_T_BIND_MPI_COMM" (pos 9701))
    ∷ (mpi_3_0, assign "UNIMPI_T_BIND_MPI_DATATYPE" (pos 9702))
    ∷ (mpi_3_0, assign "UNIMPI_T_BIND_MPI_ERRHANDLER" (pos 9703))
    ∷ (mpi_3_0, assign "UNIMPI_T_BIND_MPI_FILE" (pos 9704))
    ∷ (mpi_3_0, assign "UNIMPI_T_BIND_MPI_GROUP" (pos 9705))
    ∷ (mpi_3_0, assign "UNIMPI_T_BIND_MPI_OP" (pos 9706))
    ∷ (mpi_3_0, assign "UNIMPI_T_BIND_MPI_REQUEST" (pos 9707))
    ∷ (mpi_3_0, assign "UNIMPI_T_BIND_MPI_WIN" (pos 9708))
    ∷ (mpi_3_0, assign "UNIMPI_T_BIND_MPI_MESSAGE" (pos 9709))
    ∷ (mpi_3_0, assign "UNIMPI_T_BIND_MPI_INFO" (pos 9710))
    ∷ (mpi_3_0, assign "UNIMPI_T_BIND_MPI_SESSION" (pos 9711))
    ∷ (mpi_3_0, assign "UNIMPI_T_PVAR_CLASS_STATE" (pos 240))
    ∷ (mpi_3_0, assign "UNIMPI_T_PVAR_CLASS_LEVEL" (pos 241))
    ∷ (mpi_3_0, assign "UNIMPI_T_PVAR_CLASS_SIZE" (pos 242))
    ∷ (mpi_3_0, assign "UNIMPI_T_PVAR_CLASS_PERCENTAGE" (pos 243))
    ∷ (mpi_3_0, assign "UNIMPI_T_PVAR_CLASS_HIGHWATERMARK" (pos 244))
    ∷ (mpi_3_0, assign "UNIMPI_T_PVAR_CLASS_LOWWATERMARK" (pos 245))
    ∷ (mpi_3_0, assign "UNIMPI_T_PVAR_CLASS_COUNTER" (pos 246))
    ∷ (mpi_3_0, assign "UNIMPI_T_PVAR_CLASS_AGGREGATE" (pos 247))
    ∷ (mpi_3_0, assign "UNIMPI_T_PVAR_CLASS_TIMER" (pos 248))
    ∷ (mpi_3_0, assign "UNIMPI_T_PVAR_CLASS_GENERIC" (pos 249))
    ∷ (mpi_3_1, bind_mt "t_cvar_get_index" "MPI_T_cvar_get_index")
    ∷ (mpi_3_1, bind_mt "t_pvar_get_index" "MPI_T_pvar_get_index")
    ∷ (mpi_3_1, bind_mt "t_category_get_index" "MPI_T_category_get_index")
    ∷ []
