-- ===== src/Loader.antt =====
-- src/loader.c: the table of known backends, the choice of a library, loading it and telling which
-- implementation it is. A `const char *` is `Option Text`, NULL is `none`.
pub mod Abi
pub mod Choice
pub mod Identity
use uni_mpi.Base.{
  ℕ, Bool, true, false, Option, none, some, List, [], ◌∷◌, map, ◌==◌, if◌then◌else◌, ◌&&◌, ◌||◌,
  take, String,
}
use uni_mpi.Base.Text.{Text, codes, text_eq, contains, to_lower}
use uni_mpi.Base.Int.{ℤ, int_eq}
use uni_mpi.Codes.{
  Backend, unknown, openmpi, mpich, intelmpi, msmpi, backend_eq, ok, err_invalid_argument,
  err_no_backend, err_abi_mismatch, err_backend_load, err_backend_not_supported,
}
use uni_mpi.Platform.{Env, Os, windows, macos, linux, other_os}

-- `unimpi_backend_info_t`.
pub record BackendInfo : Type 0 where
  pub type : Backend
  pub name : Text
  pub lib_name : Text
  pub lib_name_alt : Option Text
  pub priority : ℕ

unfoldable pub unimpi_backends : List BackendInfo
unimpi_backends =
    record {
      type = openmpi;
      name = codes "openmpi";
      lib_name = codes "libmpi.so.40";
      lib_name_alt = some (codes "libmpi.so.20");
      priority = 2;
    }
    ∷ record {
      type = mpich;
      name = codes "mpich";
      lib_name = codes "libmpich.so";
      lib_name_alt = none;
      priority = 4;
    }
    ∷ record {
      type = intelmpi;
      name = codes "intelmpi";
      lib_name = codes "libmpi.so";
      lib_name_alt = none;
      priority = 3;
    }
    ∷ record {
      type = msmpi;
      name = codes "msmpi";
      lib_name = codes "msmpi.dll";
      lib_name_alt = none;
      priority = 5;
    }
    ∷ []

unfoldable pub backend_supported_on_platform : Os → Backend → Bool
backend_supported_on_platform windows t = backend_eq t msmpi
backend_supported_on_platform macos t = backend_eq t openmpi || backend_eq t mpich
backend_supported_on_platform linux t =
    backend_eq t openmpi || (backend_eq t mpich || backend_eq t intelmpi)
backend_supported_on_platform other_os t = false

-- The first entry of the table with the name, its library.
unfoldable pub lib_name_of : Text → List BackendInfo → Option Text
lib_name_of name [] = none
lib_name_of name (b ∷ bs) = if text_eq b.name name then some b.lib_name else lib_name_of name bs

-- The first entry of the table with the library, its fallback.
unfoldable pub alternative_of : Text → List BackendInfo → Option Text
alternative_of path [] = none
alternative_of path (b ∷ bs) =
    if text_eq b.lib_name path then b.lib_name_alt else alternative_of path bs

abbrev pub nonempty : Option Text → Option Text
nonempty none = none
nonempty (some []) = none
nonempty (some (c ∷ s)) = some (c ∷ s)

unfoldable pub get_nonempty_env : Env → String → Option Text
get_nonempty_env e name = nonempty (e.getenv name)

unfoldable pub unimpi_loader_get_env_backend : Env → Option Text
unfolding get_nonempty_env
unimpi_loader_get_env_backend e = get_nonempty_env e "UNIMPI_BACKEND"

unfoldable pub unimpi_loader_get_env_libpath : Env → Option Text
unfolding get_nonempty_env
unimpi_loader_get_env_libpath e = get_nonempty_env e "UNIMPI_LIBRARY"

-- At most `sizeof(lowered) - 1` bytes are looked at.
unfoldable pub path_names_standard_abi : Option Text → Bool
path_names_standard_abi none = false
path_names_standard_abi (some path) =
    let lowered = map to_lower (take 255 path) in
    contains (codes "mpi_abi") lowered || contains (codes "mpi-abi") lowered

abbrev pub default_path : Os → Text
default_path windows = codes "msmpi.dll"
default_path _ = codes "libmpi.so.40"

-- The code, and what `*out_lib_path` is set to. `out` says whether `out_lib_path` is not NULL.
unfoldable pub unimpi_loader_detect_backend : Env → Bool → ℤ × Option Text
unfolding unimpi_loader_get_env_backend unimpi_loader_get_env_libpath
unimpi_loader_detect_backend e false = (err_invalid_argument, none)
unimpi_loader_detect_backend e true = elim (unimpi_loader_get_env_libpath e) [
  | some path ↦ (ok, some path)
  | none ↦ elim (unimpi_loader_get_env_backend e) [
    | some backend ↦ elim (lib_name_of backend unimpi_backends) [
      | some path ↦ (ok, some path)
      | none ↦ (ok, some backend)
    ]
    | none ↦ (ok, some (default_path e.os))
  ]
]

-- `dlopen` of the path, or else of its fallback.
unfoldable pub open_library : Env → Text → ℕ
open_library e path =
    let handle = e.dlopen path in
    if handle == 0
    then (elim (alternative_of path unimpi_backends) [ some alt ↦ e.dlopen alt | none ↦ 0 ])
    else handle

-- The code, and what `*out_handle` is set to.
unfoldable pub unimpi_loader_load : Env → Option Text → Bool → ℤ × ℕ
unfolding open_library
unimpi_loader_load e path false = (err_invalid_argument, 0)
unimpi_loader_load e none true = (err_no_backend, 0)
unimpi_loader_load e (some path) true =
    let handle = open_library e path in
    if path_names_standard_abi (some path)
    then (err_abi_mismatch, 0)
    else if handle == 0
    then (err_backend_load, 0)
    else (ok, handle)

abbrev pub has_symbol : Env → ℕ → String → Bool
has_symbol e h symbol = if e.dlsym h (codes symbol) == 0 then false else true

-- The test of `#ifdef _WIN32`.
abbrev pub is_windows : Os → Bool
is_windows windows = true
is_windows _ = false

unfoldable pub unimpi_loader_identify_backend : Env → ℕ → Backend
unimpi_loader_identify_backend e h =
    if h == 0
    then unknown
    else if is_windows e.os && has_symbol e h "MSMPI_Get_version"
    then msmpi
    else if has_symbol e h "ompi_mpi_comm_world"
    then openmpi
    else if has_symbol e h "__I_MPI___cpu_core_type"
    then intelmpi
    else if has_symbol e h "MPIR_Err_create_code" || has_symbol e h "MPIR_Dup_fn"
    then mpich
    else if has_symbol e h "MPIR_Comm_world"
    then mpich
    else unknown

unfoldable pub unimpi_loader_check_platform_support : Env → Backend → Option Text → ℤ
unfolding backend_supported_on_platform
unimpi_loader_check_platform_support e t path =
    if backend_supported_on_platform e.os t
    then (if (backend_eq t mpich || backend_eq t intelmpi) && path_names_standard_abi path
        then err_abi_mismatch
        else ok)
    else err_backend_not_supported

-- What `unimpi_diagnose_backend` finds out and prints, before it unloads the library again.
pub data Diagnosis : Type 0 where
  load_failed : ℤ → Diagnosis
  loaded : Backend → List (String × Bool) → Diagnosis

abbrev pub required_symbols : List String
required_symbols =
    "MPI_Init" ∷ "MPI_Finalize" ∷ "MPI_Comm_size" ∷ "MPI_Comm_rank" ∷ "MPI_Send" ∷ "MPI_Recv" ∷ []

unfoldable pub unimpi_diagnose_backend : Env → Option Text → Diagnosis
unimpi_diagnose_backend e path =
    let (code, h) = unimpi_loader_load e path true in
    if int_eq code ok
    then loaded (unimpi_loader_identify_backend e h)
        (map (λ symbol. (symbol, has_symbol e h symbol)) required_symbols)
    else load_failed code

-- The rows that `unimpi_print_backend_info` prints, after the heading.
unfoldable pub unimpi_print_backend_info : ℤ × List (Text × Text)
unfolding unimpi_backends
unimpi_print_backend_info = (ok, map (λ b. (b.name, b.lib_name)) unimpi_backends)
