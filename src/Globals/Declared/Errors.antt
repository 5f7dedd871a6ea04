-- ===== src/Globals/Declared/Errors.antt =====
-- The first hundred variables of include/unimpi_errors.h.
use uni_mpi.Base.{List, String, [], ◌∷◌}
use uni_mpi.Vtable.{Gate, base}

unfoldable pub error_variables : List (Gate × String)
error_variables =
    (base, "MPI_SUCCESS")
    ∷ (base, "MPI_ERR_BUFFER")
    ∷ (base, "MPI_ERR_COUNT")
    ∷ (base, "MPI_ERR_TYPE")
    ∷ (base, "MPI_ERR_TAG")
    ∷ (base, "MPI_ERR_COMM")
    ∷ (base, "MPI_ERR_RANK")
    ∷ (base, "MPI_ERR_REQUEST")
    ∷ (base, "MPI_ERR_ROOT")
    ∷ (base, "MPI_ERR_GROUP")
    ∷ (base, "MPI_ERR_OP")
    ∷ (base, "MPI_ERR_TOPOLOGY")
    ∷ (base, "MPI_ERR_DIMS")
    ∷ (base, "MPI_ERR_ARG")
    ∷ (base, "MPI_ERR_UNKNOWN")
    ∷ (base, "MPI_ERR_TRUNCATE")
    ∷ (base, "MPI_ERR_OTHER")
    ∷ (base, "MPI_ERR_INTERN")
    ∷ (base, "MPI_ERR_IN_STATUS")
    ∷ (base, "MPI_ERR_PENDING")
    ∷ (base, "MPI_ERR_ACCESS")
    ∷ (base, "MPI_ERR_AMODE")
    ∷ (base, "MPI_ERR_ASSERT")
    ∷ (base, "MPI_ERR_BAD_FILE")
    ∷ (base, "MPI_ERR_BASE")
    ∷ (base, "MPI_ERR_CONVERSION")
    ∷ (base, "MPI_ERR_DISP")
    ∷ (base, "MPI_ERR_DUP_DATAREP")
    ∷ (base, "MPI_ERR_FILE_EXISTS")
    ∷ (base, "MPI_ERR_FILE_IN_USE")
    ∷ (base, "MPI_ERR_FILE")
    ∷ (base, "MPI_ERR_INFO_KEY")
    ∷ (base, "MPI_ERR_INFO_NOKEY")
    ∷ (base, "MPI_ERR_INFO_VALUE")
    ∷ (base, "MPI_ERR_INFO")
    ∷ (base, "MPI_ERR_IO")
    ∷ (base, "MPI_ERR_KEYVAL")
    ∷ (base, "MPI_ERR_LOCKTYPE")
    ∷ (base, "MPI_ERR_NAME")
    ∷ (base, "MPI_ERR_NO_MEM")
    ∷ (base, "MPI_ERR_NOT_SAME")
    ∷ (base, "MPI_ERR_NO_SPACE")
    ∷ (base, "MPI_ERR_NO_SUCH_FILE")
    ∷ (base, "MPI_ERR_PORT")
    ∷ (base, "MPI_ERR_QUOTA")
    ∷ (base, "MPI_ERR_READ_ONLY")
    ∷ (base, "MPI_ERR_RMA_CONFLICT")
    ∷ (base, "MPI_ERR_RMA_SYNC")
    ∷ (base, "MPI_ERR_RMA_RANGE")
    ∷ (base, "MPI_ERR_SERVICE")
    ∷ (base, "MPI_ERR_SIZE")
    ∷ (base, "MPI_ERR_SPAWN")
    ∷ (base, "MPI_ERR_UNSUPPORTED_DATAREP")
    ∷ (base, "MPI_ERR_UNSUPPORTED_OPERATION")
    ∷ (base, "MPI_ERR_WIN")
    ∷ (base, "MPI_ERR_RMA_ATTACH")
    ∷ (base, "MPI_ERR_RMA_SHARED")
    ∷ (base, "MPI_ERR_RMA_FLAVOR")
    ∷ (base, "MPI_ERR_SESSION")
    ∷ (base, "MPI_ERR_PROC_ABORTED")
    ∷ (base, "MPI_ERR_VALUE_TOO_LARGE")
    ∷ (base, "MPI_ERR_ERRHANDLER")
    ∷ (base, "MPI_ERR_ABI")
    ∷ (base, "MPI_ERR_LASTCODE")
    ∷ (base, "MPI_THREAD_SINGLE")
    ∷ (base, "MPI_THREAD_FUNNELED")
    ∷ (base, "MPI_THREAD_SERIALIZED")
    ∷ (base, "MPI_THREAD_MULTIPLE")
    ∷ (base, "MPI_MODE_RDONLY")
    ∷ (base, "MPI_MODE_RDWR")
    ∷ (base, "MPI_MODE_WRONLY")
    ∷ (base, "MPI_MODE_CREATE")
    ∷ (base, "MPI_MODE_EXCL")
    ∷ (base, "MPI_MODE_DELETE_ON_CLOSE")
    ∷ (base, "MPI_MODE_UNIQUE_OPEN")
    ∷ (base, "MPI_MODE_APPEND")
    ∷ (base, "MPI_MODE_SEQUENTIAL")
    ∷ (base, "MPI_SEEK_SET")
    ∷ (base, "MPI_SEEK_CUR")
    ∷ (base, "MPI_SEEK_END")
    ∷ (base, "MPI_ORDER_C")
    ∷ (base, "MPI_ORDER_FORTRAN")
    ∷ (base, "MPI_DISTRIBUTE_BLOCK")
    ∷ (base, "MPI_DISTRIBUTE_CYCLIC")
    ∷ (base, "MPI_DISTRIBUTE_NONE")
    ∷ (base, "MPI_DISTRIBUTE_DFLT_DARG")
    ∷ (base, "MPI_WIN_FLAVOR_CREATE")
    ∷ (base, "MPI_WIN_FLAVOR_ALLOCATE")
    ∷ (base, "MPI_WIN_FLAVOR_DYNAMIC")
    ∷ (base, "MPI_WIN_FLAVOR_SHARED")
    ∷ (base, "MPI_WIN_SEPARATE")
    ∷ (base, "MPI_WIN_UNIFIED")
    ∷ (base, "MPI_LOCK_EXCLUSIVE")
    ∷ (base, "MPI_LOCK_SHARED")
    ∷ (base, "MPI_IDENT")
    ∷ (base, "MPI_CONGRUENT")
    ∷ (base, "MPI_SIMILAR")
    ∷ (base, "MPI_UNEQUAL")
    ∷ (base, "MPI_TEST_CANCELLED_TRUE")
    ∷ (base, "MPI_TEST_CANCELLED_FALSE")
    ∷ []
