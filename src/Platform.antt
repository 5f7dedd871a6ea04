-- ===== src/Platform.antt =====
-- What the library takes from outside during one call: the dynamic loader behind
-- src/platform_posix.c and src/platform_windows.c, the environment, the platform and the target
-- version that it is compiled for, and what the functions of the loaded MPI library return.
-- A pointer or handle is a number, NULL is 0.
use uni_mpi.Base.{ℕ, Bool, Option, String, ltb, leb, ◌==◌, ◌&&◌, ◌||◌}
use uni_mpi.Base.Text.{Text}
use uni_mpi.Base.Int.{ℤ}

-- The branches of `#ifdef _WIN32 / __APPLE__ / __linux__ / #else`.
pub data Os : Type 0 where
  windows macos linux other_os : Os

-- UNIMPI_MPI_TARGET_VERSION and UNIMPI_MPI_TARGET_SUBVERSION.
pub record Target : Type 0 where
  pub version : ℕ
  pub subversion : ℕ

-- UNIMPI_MPI_AT_LEAST.
unfoldable pub at_least : Target → ℕ → ℕ → Bool
at_least t major minor = ltb major t.version || (t.version == major && leb minor t.subversion)

pub record Env : Type 0 where
  pub os : Os
  pub target : Target
  pub getenv : String → Option Text
  -- `dlopen(path, RTLD_NOW | RTLD_GLOBAL)` or `LoadLibrary`.
  pub dlopen : Text → ℕ
  -- `dlsym` or `GetProcAddress`.
  pub dlsym : ℕ → Text → ℕ
  -- The address of a function of UniMPI itself.
  pub address : String → ℕ
  -- The `int`, or the pointer, that stands at an address.
  pub load_int : ℕ → ℤ
  pub load_pointer : ℕ → ℕ
  -- The value that a call of MPI_Init through the pointer returns, and so on. MPI_Init_thread
  -- and MPI_T_init_thread take the required level, and give back the provided one too.
  pub call_init : ℕ → ℤ
  pub call_init_thread : ℕ → ℤ → ℤ × ℤ
  pub call_finalize : ℕ → ℤ
  pub call_t_init_thread : ℕ → ℤ → ℤ × ℤ
  pub call_t_finalize : ℕ → ℤ
