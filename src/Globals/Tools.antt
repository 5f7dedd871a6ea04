-- ===== src/Globals/Tools.antt =====
-- The constants of the tools interface in src/mp_constants.c, with the values they start with.
use uni_mpi.Base.{List, String, [], ◌∷◌}
use uni_mpi.Base.Int.{ℤ, pos}

unfoldable pub tools_globals : List (String × ℤ)
tools_globals =
    ("MPI_T_ERR_MEMORY", (pos 0))
    ∷ ("MPI_T_ERR_NOT_INITIALIZED", (pos 0))
    ∷ ("MPI_T_ERR_CANNOT_INIT", (pos 0))
    ∷ ("MPI_T_ERR_NOT_SUPPORTED", (pos 0))
    ∷ ("MPI_T_ERR_INVALID_INDEX", (pos 0))
    ∷ ("MPI_T_ERR_INVALID_ITEM", (pos 0))
    ∷ ("MPI_T_ERR_INVALID_HANDLE", (pos 0))
    ∷ ("MPI_T_ERR_OUT_OF_HANDLES", (pos 0))
    ∷ ("MPI_T_ERR_OUT_OF_SESSIONS", (pos 0))
    ∷ ("MPI_T_ERR_INVALID_SESSION", (pos 0))
    ∷ ("MPI_T_ERR_CVAR_SET_NOT_NOW", (pos 0))
    ∷ ("MPI_T_ERR_CVAR_SET_NEVER", (pos 0))
    ∷ ("MPI_T_ERR_PVAR_NO_STARTSTOP", (pos 0))
    ∷ ("MPI_T_ERR_PVAR_NO_WRITE", (pos 0))
    ∷ ("MPI_T_ERR_PVAR_NO_ATOMIC", (pos 0))
    ∷ ("MPI_T_ERR_INVALID", (pos 0))
    ∷ ("MPI_T_ERR_INVALID_NAME", (pos 0))
    ∷ ("MPI_T_ERR_INVALID_ENUM", (pos 0))
    ∷ ("UNIMPI_T_PVAR_CLASS_STATE", (pos 0))
    ∷ ("UNIMPI_T_PVAR_CLASS_LEVEL", (pos 0))
    ∷ ("UNIMPI_T_PVAR_CLASS_SIZE", (pos 0))
    ∷ ("UNIMPI_T_PVAR_CLASS_PERCENTAGE", (pos 0))
    ∷ ("UNIMPI_T_PVAR_CLASS_HIGHWATERMARK", (pos 0))
    ∷ ("UNIMPI_T_PVAR_CLASS_LOWWATERMARK", (pos 0))
    ∷ ("UNIMPI_T_PVAR_CLASS_COUNTER", (pos 0))
    ∷ ("UNIMPI_T_PVAR_CLASS_AGGREGATE", (pos 0))
    ∷ ("UNIMPI_T_PVAR_CLASS_TIMER", (pos 0))
    ∷ ("UNIMPI_T_PVAR_CLASS_GENERIC", (pos 0))
    ∷ ("UNIMPI_T_PVAR_CLASS_INVALID", (pos 0))
    ∷ ("UNIMPI_T_BIND_NO_OBJECT", (pos 0))
    ∷ ("UNIMPI_T_BIND_MPI_COMM", (pos 0))
    ∷ ("UNIMPI_T_BIND_MPI_DATATYPE", (pos 0))
    ∷ ("UNIMPI_T_BIND_MPI_ERRHANDLER", (pos 0))
    ∷ ("UNIMPI_T_BIND_MPI_FILE", (pos 0))
    ∷ ("UNIMPI_T_BIND_MPI_GROUP", (pos 0))
    ∷ ("UNIMPI_T_BIND_MPI_OP", (pos 0))
    ∷ ("UNIMPI_T_BIND_MPI_REQUEST", (pos 0))
    ∷ ("UNIMPI_T_BIND_MPI_WIN", (pos 0))
    ∷ ("UNIMPI_T_BIND_MPI_MESSAGE", (pos 0))
    ∷ ("UNIMPI_T_BIND_MPI_INFO", (pos 0))
    ∷ ("UNIMPI_T_BIND_MPI_SESSION", (pos 0))
    ∷ ("UNIMPI_T_BIND_INVALID", (pos 0))
    ∷ ("UNIMPI_T_SCOPE_CONSTANT", (pos 0))
    ∷ ("UNIMPI_T_SCOPE_READONLY", (pos 0))
    ∷ ("UNIMPI_T_SCOPE_LOCAL", (pos 0))
    ∷ ("UNIMPI_T_SCOPE_GROUP", (pos 0))
    ∷ ("UNIMPI_T_SCOPE_GROUP_EQ", (pos 0))
    ∷ ("UNIMPI_T_SCOPE_ALL", (pos 0))
    ∷ ("UNIMPI_T_SCOPE_ALL_EQ", (pos 0))
    ∷ ("UNIMPI_T_SCOPE_INVALID", (pos 0))
    ∷ ("UNIMPI_T_SOURCE_ORDINARY", (pos 0))
    ∷ ("UNIMPI_T_SOURCE_DISTRIBUTED", (pos 0))
    ∷ ("UNIMPI_T_VERBOSITY_USER_BASIC", (pos 0))
    ∷ ("UNIMPI_T_VERBOSITY_USER_DETAIL", (pos 0))
    ∷ ("UNIMPI_T_VERBOSITY_USER_ALL", (pos 0))
    ∷ ("UNIMPI_T_VERBOSITY_TUNER_BASIC", (pos 0))
    ∷ ("UNIMPI_T_VERBOSITY_TUNER_DETAIL", (pos 0))
    ∷ ("UNIMPI_T_VERBOSITY_TUNER_ALL", (pos 0))
    ∷ ("UNIMPI_T_VERBOSITY_MPIDEV_BASIC", (pos 0))
    ∷ ("UNIMPI_T_VERBOSITY_MPIDEV_DETAIL", (pos 0))
    ∷ ("UNIMPI_T_VERBOSITY_MPIDEV_ALL", (pos 0))
    ∷ ("UNIMPI_T_VERBOSITY_INVALID", (pos 0))
    ∷ ("UNIMPI_T_PVAR_HANDLE_NULL", (pos 0))
    ∷ ("UNIMPI_T_CVAR_HANDLE_NULL", (pos 0))
    ∷ ("UNIMPI_T_PVAR_SESSION_NULL", (pos 0))
    ∷ []
