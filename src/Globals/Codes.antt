-- ===== src/Globals/Codes.antt =====
-- The MPI codes and constants of src/error.c, with the values they start with, from `MPI_SUCCESS` on.
use uni_mpi.Base.{List, String, [], ◌∷◌}
use uni_mpi.Base.Int.{ℤ, pos}

unfoldable pub error_globals : List (String × ℤ)
error_globals =
    ("MPI_SUCCESS", (pos 0))
    ∷ ("MPI_ERR_BUFFER", (pos 0))
    ∷ ("MPI_ERR_COUNT", (pos 0))
    ∷ ("MPI_ERR_TYPE", (pos 0))
    ∷ ("MPI_ERR_TAG", (pos 0))
    ∷ ("MPI_ERR_COMM", (pos 0))
    ∷ ("MPI_ERR_RANK", (pos 0))
    ∷ ("MPI_ERR_REQUEST", (pos 0))
    ∷ ("MPI_ERR_ROOT", (pos 0))
    ∷ ("MPI_ERR_GROUP", (pos 0))
    ∷ ("MPI_ERR_OP", (pos 0))
    ∷ ("MPI_ERR_TOPOLOGY", (pos 0))
    ∷ ("MPI_ERR_DIMS", (pos 0))
    ∷ ("MPI_ERR_ARG", (pos 0))
    ∷ ("MPI_ERR_UNKNOWN", (pos 0))
    ∷ ("MPI_ERR_TRUNCATE", (pos 0))
    ∷ ("MPI_ERR_OTHER", (pos 0))
    ∷ ("MPI_ERR_INTERN", (pos 0))
    ∷ ("MPI_ERR_IN_STATUS", (pos 0))
    ∷ ("MPI_ERR_PENDING", (pos 0))
    ∷ ("MPI_ERR_ACCESS", (pos 0))
    ∷ ("MPI_ERR_AMODE", (pos 0))
    ∷ ("MPI_ERR_ASSERT", (pos 0))
    ∷ ("MPI_ERR_BAD_FILE", (pos 0))
    ∷ ("MPI_ERR_BASE", (pos 0))
    ∷ ("MPI_ERR_CONVERSION", (pos 0))
    ∷ ("MPI_ERR_DISP", (pos 0))
    ∷ ("MPI_ERR_DUP_DATAREP", (pos 0))
    ∷ ("MPI_ERR_FILE_EXISTS", (pos 0))
    ∷ ("MPI_ERR_FILE_IN_USE", (pos 0))
    ∷ ("MPI_ERR_FILE", (pos 0))
    ∷ ("MPI_ERR_INFO_KEY", (pos 0))
    ∷ ("MPI_ERR_INFO_NOKEY", (pos 0))
    ∷ ("MPI_ERR_INFO_VALUE", (pos 0))
    ∷ ("MPI_ERR_INFO", (pos 0))
    ∷ ("MPI_ERR_IO", (pos 0))
    ∷ ("MPI_ERR_KEYVAL", (pos 0))
    ∷ ("MPI_ERR_LOCKTYPE", (pos 0))
    ∷ ("MPI_ERR_NAME", (pos 0))
    ∷ ("MPI_ERR_NO_MEM", (pos 0))
    ∷ ("MPI_ERR_NOT_SAME", (pos 0))
    ∷ ("MPI_ERR_NO_SPACE", (pos 0))
    ∷ ("MPI_ERR_NO_SUCH_FILE", (pos 0))
    ∷ ("MPI_ERR_PORT", (pos 0))
    ∷ ("MPI_ERR_QUOTA", (pos 0))
    ∷ ("MPI_ERR_READ_ONLY", (pos 0))
    ∷ ("MPI_ERR_RMA_CONFLICT", (pos 0))
    ∷ ("MPI_ERR_RMA_SYNC", (pos 0))
    ∷ ("MPI_ERR_SERVICE", (pos 0))
    ∷ ("MPI_ERR_SIZE", (pos 0))
    ∷ ("MPI_ERR_SPAWN", (pos 0))
    ∷ ("MPI_ERR_UNSUPPORTED_DATAREP", (pos 0))
    ∷ ("MPI_ERR_UNSUPPORTED_OPERATION", (pos 0))
    ∷ ("MPI_ERR_WIN", (pos 0))
    ∷ ("MPI_ERR_RMA_RANGE", (pos 0))
    ∷ ("MPI_ERR_RMA_ATTACH", (pos 0))
    ∷ ("MPI_ERR_RMA_SHARED", (pos 0))
    ∷ ("MPI_ERR_RMA_FLAVOR", (pos 0))
    ∷ ("MPI_ERR_SESSION", (pos 0))
    ∷ ("MPI_ERR_PROC_ABORTED", (pos 0))
    ∷ ("MPI_ERR_VALUE_TOO_LARGE", (pos 0))
    ∷ ("MPI_ERR_ERRHANDLER", (pos 0))
    ∷ ("MPI_ERR_ABI", (pos 0))
    ∷ ("MPI_ERR_LASTCODE", (pos 0))
    ∷ ("MPI_THREAD_SINGLE", (pos 0))
    ∷ ("MPI_THREAD_FUNNELED", (pos 1))
    ∷ ("MPI_THREAD_SERIALIZED", (pos 2))
    ∷ ("MPI_THREAD_MULTIPLE", (pos 3))
    ∷ ("MPI_MODE_RDONLY", (pos 2))
    ∷ ("MPI_MODE_RDWR", (pos 8))
    ∷ []
