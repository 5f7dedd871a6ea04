-- ===== src/Codes.antt =====
-- The codes, levels and sizes of include/unimpi.h, and the backend types of
-- include/unimpi_loader.h.
use uni_mpi.Base.{Bool}
use uni_mpi.Base.Int.{ℤ, pos, negsuc}

-- The UNIMPI_OK and UNIMPI_ERR_* codes.
abbrev pub ok : ℤ
ok = pos 0

abbrev pub err_no_backend : ℤ
err_no_backend = negsuc 0

abbrev pub err_backend_load : ℤ
err_backend_load = negsuc 1

abbrev pub err_abi_mismatch : ℤ
err_abi_mismatch = negsuc 2

abbrev pub err_not_initialized : ℤ
err_not_initialized = negsuc 3

abbrev pub err_already_initialized : ℤ
err_already_initialized = negsuc 4

abbrev pub err_symbol_not_found : ℤ
err_symbol_not_found = negsuc 5

abbrev pub err_out_of_memory : ℤ
err_out_of_memory = negsuc 6

abbrev pub err_invalid_argument : ℤ
err_invalid_argument = negsuc 7

abbrev pub err_backend_not_supported : ℤ
err_backend_not_supported = negsuc 8

abbrev pub err_backend_init_failed : ℤ
err_backend_init_failed = negsuc 9

abbrev pub err_finalized : ℤ
err_finalized = negsuc 10

abbrev pub err_invalid_state : ℤ
err_invalid_state = negsuc 11

-- The UNIMPI_THREAD_* levels.
abbrev pub thread_single : ℤ
thread_single = pos 0

abbrev pub thread_funneled : ℤ
thread_funneled = pos 1

abbrev pub thread_serialized : ℤ
thread_serialized = pos 2

abbrev pub thread_multiple : ℤ
thread_multiple = pos 3

-- UNIMPI_BACKEND_*.
pub data Backend : Type 0 where
  unknown openmpi mpich intelmpi msmpi : Backend

abbrev pub backend_eq : Backend → Backend → Bool
backend_eq unknown unknown = Bool.true
backend_eq openmpi openmpi = Bool.true
backend_eq mpich mpich = Bool.true
backend_eq intelmpi intelmpi = Bool.true
backend_eq msmpi msmpi = Bool.true
backend_eq _ _ = Bool.false
