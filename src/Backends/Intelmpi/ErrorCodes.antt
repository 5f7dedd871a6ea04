-- ===== src/Backends/Intelmpi/ErrorCodes.antt =====
-- The values that `init_intelmpi_error_codes` in src/backends/intelmpi.c gives to the MPI variables.
use uni_mpi.Base.{[], ◌∷◌}
use uni_mpi.Base.Int.{negsuc, pos}
use uni_mpi.Vtable.{Program, base, assign}

unfoldable pub init_intelmpi_error_codes : Program
init_intelmpi_error_codes =
    (base, assign "MPI_SUCCESS" (pos 0))
    ∷ (base, assign "MPI_ANY_SOURCE" (negsuc 1))
    ∷ (base, assign "MPI_ERR_BUFFER" (pos 1))
    ∷ (base, assign "MPI_ERR_COUNT" (pos 2))
    ∷ (base, assign "MPI_ERR_TYPE" (pos 3))
    ∷ (base, assign "MPI_ERR_TAG" (pos 4))
    ∷ (base, assign "MPI_ERR_COMM" (pos 5))
    ∷ (base, assign "MPI_ERR_RANK" (pos 6))
    ∷ (base, assign "MPI_ERR_ROOT" (pos 7))
    ∷ (base, assign "MPI_ERR_GROUP" (pos 8))
    ∷ (base, assign "MPI_ERR_OP" (pos 9))
    ∷ (base, assign "MPI_ERR_TOPOLOGY" (pos 10))
    ∷ (base, assign "MPI_ERR_DIMS" (pos 11))
    ∷ (base, assign "MPI_ERR_ARG" (pos 12))
    ∷ (base, assign "MPI_ERR_UNKNOWN" (pos 13))
    ∷ (base, assign "MPI_ERR_TRUNCATE" (pos 14))
    ∷ (base, assign "MPI_ERR_OTHER" (pos 15))
    ∷ (base, assign "MPI_ERR_INTERN" (pos 16))
    ∷ (base, assign "MPI_ERR_IN_STATUS" (pos 17))
    ∷ (base, assign "MPI_ERR_PENDING" (pos 18))
    ∷ (base, assign "MPI_ERR_REQUEST" (pos 19))
    ∷ (base, assign "MPI_ERR_ACCESS" (pos 20))
    ∷ (base, assign "MPI_ERR_AMODE" (pos 21))
    ∷ (base, assign "MPI_ERR_BAD_FILE" (pos 22))
    ∷ (base, assign "MPI_ERR_CONVERSION" (pos 23))
    ∷ (base, assign "MPI_ERR_DUP_DATAREP" (pos 24))
    ∷ (base, assign "MPI_ERR_FILE_EXISTS" (pos 25))
    ∷ (base, assign "MPI_ERR_FILE_IN_USE" (pos 26))
    ∷ (base, assign "MPI_ERR_FILE" (pos 27))
    ∷ (base, assign "MPI_ERR_INFO" (pos 28))
    ∷ (base, assign "MPI_ERR_INFO_KEY" (pos 29))
    ∷ (base, assign "MPI_ERR_INFO_VALUE" (pos 30))
    ∷ (base, assign "MPI_ERR_INFO_NOKEY" (pos 31))
    ∷ (base, assign "MPI_ERR_IO" (pos 32))
    ∷ (base, assign "MPI_ERR_NAME" (pos 33))
    ∷ (base, assign "MPI_ERR_NO_MEM" (pos 34))
    ∷ (base, assign "MPI_ERR_NOT_SAME" (pos 35))
    ∷ (base, assign "MPI_ERR_NO_SPACE" (pos 36))
    ∷ (base, assign "MPI_ERR_NO_SUCH_FILE" (pos 37))
    ∷ (base, assign "MPI_ERR_PORT" (pos 38))
    ∷ (base, assign "MPI_ERR_QUOTA" (pos 39))
    ∷ (base, assign "MPI_ERR_READ_ONLY" (pos 40))
    ∷ (base, assign "MPI_ERR_SERVICE" (pos 41))
    ∷ (base, assign "MPI_ERR_SPAWN" (pos 42))
    ∷ (base, assign "MPI_ERR_UNSUPPORTED_DATAREP" (pos 43))
    ∷ (base, assign "MPI_ERR_UNSUPPORTED_OPERATION" (pos 44))
    ∷ (base, assign "MPI_ERR_WIN" (pos 45))
    ∷ (base, assign "MPI_ERR_BASE" (pos 46))
    ∷ (base, assign "MPI_ERR_LOCKTYPE" (pos 47))
    ∷ (base, assign "MPI_ERR_KEYVAL" (pos 48))
    ∷ (base, assign "MPI_ERR_RMA_CONFLICT" (pos 49))
    ∷ (base, assign "MPI_ERR_RMA_SYNC" (pos 50))
    ∷ (base, assign "MPI_ERR_SIZE" (pos 51))
    ∷ (base, assign "MPI_ERR_DISP" (pos 52))
    ∷ (base, assign "MPI_ERR_ASSERT" (pos 53))
    ∷ (base, assign "MPI_ERR_RMA_ATTACH" (pos 56))
    ∷ (base, assign "MPI_ERR_RMA_SHARED" (pos 57))
    ∷ (base, assign "MPI_ERR_RMA_FLAVOR" (pos 58))
    ∷ (base, assign "MPI_ERR_SESSION" (pos 75))
    ∷ (base, assign "MPI_ERR_PROC_ABORTED" (pos 76))
    ∷ (base, assign "MPI_ERR_VALUE_TOO_LARGE" (pos 77))
    ∷ (base, assign "MPI_ERR_ERRHANDLER" (pos 80))
    ∷ (base, assign "MPI_ERR_ABI" (pos 81))
    ∷ (base, assign "MPI_ERR_LASTCODE" (pos 0x3fffffff))
    ∷ []
