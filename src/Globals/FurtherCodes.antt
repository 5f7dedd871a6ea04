-- ===== src/Globals/FurtherCodes.antt =====
-- The MPI codes and constants of src/error.c, with the values they start with, from `MPI_MODE_WRONLY` on.
use uni_mpi.Base.{List, String, [], ◌∷◌}
use uni_mpi.Base.Int.{ℤ, pos, negsuc}

unfoldable pub further_error_globals : List (String × ℤ)
further_error_globals =
    ("MPI_MODE_WRONLY", (pos 4))
    ∷ ("MPI_MODE_CREATE", (pos 1))
    ∷ ("MPI_MODE_EXCL", (pos 64))
    ∷ ("MPI_MODE_DELETE_ON_CLOSE", (pos 16))
    ∷ ("MPI_MODE_UNIQUE_OPEN", (pos 32))
    ∷ ("MPI_MODE_APPEND", (pos 128))
    ∷ ("MPI_MODE_SEQUENTIAL", (pos 256))
    ∷ ("MPI_SEEK_SET", (pos 100))
    ∷ ("MPI_SEEK_CUR", (pos 101))
    ∷ ("MPI_SEEK_END", (pos 102))
    ∷ ("MPI_ORDER_C", (pos 100))
    ∷ ("MPI_ORDER_FORTRAN", (pos 101))
    ∷ ("MPI_DISTRIBUTE_BLOCK", (pos 100))
    ∷ ("MPI_DISTRIBUTE_CYCLIC", (pos 101))
    ∷ ("MPI_DISTRIBUTE_NONE", (pos 102))
    ∷ ("MPI_DISTRIBUTE_DFLT_DARG", (negsuc 0))
    ∷ ("MPI_WIN_FLAVOR_CREATE", (pos 1))
    ∷ ("MPI_WIN_FLAVOR_ALLOCATE", (pos 2))
    ∷ ("MPI_WIN_FLAVOR_DYNAMIC", (pos 3))
    ∷ ("MPI_WIN_FLAVOR_SHARED", (pos 4))
    ∷ ("MPI_WIN_SEPARATE", (pos 1))
    ∷ ("MPI_WIN_UNIFIED", (pos 0))
    ∷ ("MPI_LOCK_EXCLUSIVE", (pos 1))
    ∷ ("MPI_LOCK_SHARED", (pos 2))
    ∷ ("MPI_IDENT", (pos 0))
    ∷ ("MPI_CONGRUENT", (pos 1))
    ∷ ("MPI_SIMILAR", (pos 2))
    ∷ ("MPI_UNEQUAL", (pos 3))
    ∷ ("MPI_ANY_SOURCE", (negsuc 0))
    ∷ ("MPI_ANY_TAG", (negsuc 0))
    ∷ ("MPI_UNDEFINED", (negsuc 32765))
    ∷ ("MPI_TAG_UB", (pos 0))
    ∷ ("MPI_HOST", (pos 1))
    ∷ ("MPI_IO", (pos 2))
    ∷ ("MPI_WTIME_IS_GLOBAL", (pos 3))
    ∷ ("MPI_BSEND_OVERHEAD", (pos 0))
    ∷ ("MPI_PROC_NULL", (negsuc 0))
    ∷ ("MPI_ROOT", (negsuc 2))
    ∷ ("MPI_IN_PLACE", (pos 0))
    ∷ ("MPI_STATUS_SIZE", (pos 5))
    ∷ ("MPI_SOURCE", (pos 0))
    ∷ ("MPI_TAG", (pos 1))
    ∷ ("MPI_ERROR", (pos 2))
    ∷ ("MPI_COMM_TYPE_SHARED", (pos 1))
    ∷ ("MPI_COMM_TYPE_HW_UNGUIDED", (pos 2))
    ∷ ("MPI_COMM_TYPE_HW_THREAD", (pos 3))
    ∷ ("MPI_MAX_PROCESSOR_NAME", (pos 256))
    ∷ ("MPI_MAX_LIBRARY_VERSION_STRING", (pos 256))
    ∷ ("MPI_MAX_ERROR_STRING", (pos 256))
    ∷ ("MPI_MAX_INFO_KEY", (pos 255))
    ∷ ("MPI_MAX_INFO_VAL", (pos 1024))
    ∷ ("MPI_MAX_OBJECT_NAME", (pos 128))
    ∷ ("MPI_MAX_PORT_NAME", (pos 256))
    ∷ ("MPI_MAX_DATAREP_STRING", (pos 128))
    ∷ []
