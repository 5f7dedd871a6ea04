-- ===== src/Globals/Declared/Tools.antt =====
-- The variables that include/unimpi_mt_constants.h declares.
use uni_mpi.Base.{List, String, [], ◌∷◌}
use uni_mpi.Vtable.{Gate, mpi_3_0}

unfoldable pub tools_variables : List (Gate × String)
tools_variables =
    (mpi_3_0, "UNIMPI_T_PVAR_CLASS_STATE")
    ∷ (mpi_3_0, "UNIMPI_T_PVAR_CLASS_LEVEL")
    ∷ (mpi_3_0, "UNIMPI_T_PVAR_CLASS_SIZE")
    ∷ (mpi_3_0, "UNIMPI_T_PVAR_CLASS_PERCENTAGE")
    ∷ (mpi_3_0, "UNIMPI_T_PVAR_CLASS_HIGHWATERMARK")
    ∷ (mpi_3_0, "UNIMPI_T_PVAR_CLASS_LOWWATERMARK")
    ∷ (mpi_3_0, "UNIMPI_T_PVAR_CLASS_COUNTER")
    ∷ (mpi_3_0, "UNIMPI_T_PVAR_CLASS_AGGREGATE")
    ∷ (mpi_3_0, "UNIMPI_T_PVAR_CLASS_TIMER")
    ∷ (mpi_3_0, "UNIMPI_T_PVAR_CLASS_GENERIC")
    ∷ (mpi_3_0, "UNIMPI_T_PVAR_CLASS_INVALID")
    ∷ (mpi_3_0, "UNIMPI_T_BIND_NO_OBJECT")
    ∷ (mpi_3_0, "UNIMPI_T_BIND_MPI_COMM")
    ∷ (mpi_3_0, "UNIMPI_T_BIND_MPI_DATATYPE")
    ∷ (mpi_3_0, "UNIMPI_T_BIND_MPI_ERRHANDLER")
    ∷ (mpi_3_0, "UNIMPI_T_BIND_MPI_FILE")
    ∷ (mpi_3_0, "UNIMPI_T_BIND_MPI_GROUP")
    ∷ (mpi_3_0, "UNIMPI_T_BIND_MPI_OP")
    ∷ (mpi_3_0, "UNIMPI_T_BIND_MPI_REQUEST")
    ∷ (mpi_3_0, "UNIMPI_T_BIND_MPI_WIN")
    ∷ (mpi_3_0, "UNIMPI_T_BIND_MPI_MESSAGE")
    ∷ (mpi_3_0, "UNIMPI_T_BIND_MPI_INFO")
    ∷ (mpi_3_0, "UNIMPI_T_BIND_MPI_SESSION")
    ∷ (mpi_3_0, "UNIMPI_T_BIND_INVALID")
    ∷ (mpi_3_0, "UNIMPI_T_SCOPE_CONSTANT")
    ∷ (mpi_3_0, "UNIMPI_T_SCOPE_READONLY")
    ∷ (mpi_3_0, "UNIMPI_T_SCOPE_LOCAL")
    ∷ (mpi_3_0, "UNIMPI_T_SCOPE_GROUP")
    ∷ (mpi_3_0, "UNIMPI_T_SCOPE_GROUP_EQ")
    ∷ (mpi_3_0, "UNIMPI_T_SCOPE_ALL")
    ∷ (mpi_3_0, "UNIMPI_T_SCOPE_ALL_EQ")
    ∷ (mpi_3_0, "UNIMPI_T_SCOPE_INVALID")
    ∷ (mpi_3_0, "UNIMPI_T_SOURCE_ORDINARY")
    ∷ (mpi_3_0, "UNIMPI_T_SOURCE_DISTRIBUTED")
    ∷ (mpi_3_0, "UNIMPI_T_VERBOSITY_USER_BASIC")
    ∷ (mpi_3_0, "UNIMPI_T_VERBOSITY_USER_DETAIL")
    ∷ (mpi_3_0, "UNIMPI_T_VERBOSITY_USER_ALL")
    ∷ (mpi_3_0, "UNIMPI_T_VERBOSITY_TUNER_BASIC")
    ∷ (mpi_3_0, "UNIMPI_T_VERBOSITY_TUNER_DETAIL")
    ∷ (mpi_3_0, "UNIMPI_T_VERBOSITY_TUNER_ALL")
    ∷ (mpi_3_0, "UNIMPI_T_VERBOSITY_MPIDEV_BASIC")
    ∷ (mpi_3_0, "UNIMPI_T_VERBOSITY_MPIDEV_DETAIL")
    ∷ (mpi_3_0, "UNIMPI_T_VERBOSITY_MPIDEV_ALL")
    ∷ (mpi_3_0, "UNIMPI_T_VERBOSITY_INVALID")
    ∷ (mpi_3_0, "UNIMPI_T_PVAR_HANDLE_NULL")
    ∷ (mpi_3_0, "UNIMPI_T_CVAR_HANDLE_NULL")
    ∷ (mpi_3_0, "UNIMPI_T_PVAR_SESSION_NULL")
    ∷ []
