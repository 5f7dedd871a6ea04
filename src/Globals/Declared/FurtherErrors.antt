-- ===== src/Globals/Declared/FurtherErrors.antt =====
-- The variables of include/unimpi_errors.h from `MPI_ANY_SOURCE` on.
use uni_mpi.Base.{List, String, [], ◌∷◌}
use uni_mpi.Vtable.{Gate, base, mpi_3_0}

unfoldable pub further_error_variables : List (Gate × String)
further_error_variables =
    (base, "MPI_ANY_SOURCE")
    ∷ (base, "MPI_ANY_TAG")
    ∷ (base, "MPI_UNDEFINED")
    ∷ (base, "MPI_TAG_UB")
    ∷ (base, "MPI_HOST")
    ∷ (base, "MPI_IO")
    ∷ (base, "MPI_WTIME_IS_GLOBAL")
    ∷ (base, "MPI_BSEND_OVERHEAD")
    ∷ (base, "MPI_PROC_NULL")
    ∷ (base, "MPI_ROOT")
    ∷ (base, "MPI_IN_PLACE")
    ∷ (base, "MPI_STATUS_SIZE")
    ∷ (base, "MPI_COMM_TYPE_SHARED")
    ∷ (base, "MPI_COMM_TYPE_HW_UNGUIDED")
    ∷ (base, "MPI_COMM_TYPE_HW_THREAD")
    ∷ (base, "MPI_MAX_PROCESSOR_NAME")
    ∷ (base, "MPI_MAX_LIBRARY_VERSION_STRING")
    ∷ (base, "MPI_MAX_ERROR_STRING")
    ∷ (base, "MPI_MAX_INFO_KEY")
    ∷ (base, "MPI_MAX_INFO_VAL")
    ∷ (base, "MPI_MAX_OBJECT_NAME")
    ∷ (base, "MPI_MAX_PORT_NAME")
    ∷ (base, "MPI_MAX_DATAREP_STRING")
    ∷ (mpi_3_0, "MPI_T_ERR_MEMORY")
    ∷ (mpi_3_0, "MPI_T_ERR_NOT_INITIALIZED")
    ∷ (mpi_3_0, "MPI_T_ERR_CANNOT_INIT")
    ∷ (mpi_3_0, "MPI_T_ERR_NOT_SUPPORTED")
    ∷ (mpi_3_0, "MPI_T_ERR_INVALID_INDEX")
    ∷ (mpi_3_0, "MPI_T_ERR_INVALID_ITEM")
    ∷ (mpi_3_0, "MPI_T_ERR_INVALID_HANDLE")
    ∷ (mpi_3_0, "MPI_T_ERR_OUT_OF_HANDLES")
    ∷ (mpi_3_0, "MPI_T_ERR_OUT_OF_SESSIONS")
    ∷ (mpi_3_0, "MPI_T_ERR_INVALID_SESSION")
    ∷ (mpi_3_0, "MPI_T_ERR_CVAR_SET_NOT_NOW")
    ∷ (mpi_3_0, "MPI_T_ERR_CVAR_SET_NEVER")
    ∷ (mpi_3_0, "MPI_T_ERR_PVAR_NO_STARTSTOP")
    ∷ (mpi_3_0, "MPI_T_ERR_PVAR_NO_WRITE")
    ∷ (mpi_3_0, "MPI_T_ERR_PVAR_NO_ATOMIC")
    ∷ (mpi_3_0, "MPI_T_ERR_INVALID")
    ∷ (mpi_3_0, "MPI_T_ERR_INVALID_NAME")
    ∷ (mpi_3_0, "MPI_T_ERR_INVALID_ENUM")
    ∷ []
