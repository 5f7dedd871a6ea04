-- ===== src/Loader/Identity.antt =====
-- What `unimpi_loader_identify_backend` answers, and which backends a platform supports.
use uni_mpi.Base.{
  ℕ, true, false, Option, ◌≡◌, ◌≢◌, refl, ◌⊎◌, inl, inr, arith, ◌==◌, ◌&&◌, ◌||◌, if◌then◌else◌,
  Bool-cases,
}
use uni_mpi.Base.Text.{Text}
use uni_mpi.Codes.{Backend, unknown, openmpi, mpich, intelmpi, msmpi, ok}
use uni_mpi.Platform.{Env, Os, windows, macos, linux}
use uni_mpi.Loader.{
  has_symbol, is_windows, backend_supported_on_platform, unimpi_loader_identify_backend,
  unimpi_loader_check_platform_support,
}

is_windows→eq : (os : Os) → is_windows os ≡ true → os ≡ windows
is_windows→eq windows h = refl
is_windows→eq _ h = cc

-- The library is not taken for MS-MPI: off Windows its symbol is not looked at.
abbrev pub LacksMsmpi : Env → ℕ → Type 0
LacksMsmpi e h = e.os ≡ windows → has_symbol e h "MSMPI_Get_version" ≡ false

-- What stands behind each answer: symbols that the library has, and that it lacks.
pub data Recognised (e : Env) (h : ℕ) : Backend → Type 0 where
  by_msmpi :
      h ≢ 0 → e.os ≡ windows → has_symbol e h "MSMPI_Get_version" ≡ true → Recognised e h msmpi
  by_openmpi :
      h ≢ 0 → LacksMsmpi e h → has_symbol e h "ompi_mpi_comm_world" ≡ true → Recognised e h openmpi
  by_intelmpi :
      h ≢ 0
      → LacksMsmpi e h
      → has_symbol e h "ompi_mpi_comm_world" ≡ false
      → has_symbol e h "__I_MPI___cpu_core_type" ≡ true
      → Recognised e h intelmpi
  by_mpich :
      h ≢ 0
      → LacksMsmpi e h
      → has_symbol e h "ompi_mpi_comm_world" ≡ false
      → has_symbol e h "__I_MPI___cpu_core_type" ≡ false
      → (has_symbol e h "MPIR_Err_create_code" ≡ true)
        ⊎ ((has_symbol e h "MPIR_Dup_fn" ≡ true) ⊎ (has_symbol e h "MPIR_Comm_world" ≡ true))
      → Recognised e h mpich
  no_library : h ≡ 0 → Recognised e h unknown
  no_symbol :
      h ≢ 0
      → LacksMsmpi e h
      → has_symbol e h "ompi_mpi_comm_world" ≡ false
      → has_symbol e h "__I_MPI___cpu_core_type" ≡ false
      → has_symbol e h "MPIR_Err_create_code" ≡ false
      → has_symbol e h "MPIR_Dup_fn" ≡ false
      → has_symbol e h "MPIR_Comm_world" ≡ false
      → Recognised e h unknown

lacks_msmpi :
    (e : Env) (h : ℕ)
    → (is_windows e.os && has_symbol e h "MSMPI_Get_version") ≡ false
    → LacksMsmpi e h
lacks_msmpi e h not_ms on_windows =
    let is_so : is_windows e.os ≡ true = rw on_windows refl in ground arith

mpich_or_none :
    (e : Env) (h : ℕ)
    → h ≢ 0
    → LacksMsmpi e h
    → has_symbol e h "ompi_mpi_comm_world" ≡ false
    → has_symbol e h "__I_MPI___cpu_core_type" ≡ false
    → Recognised e h (
        if has_symbol e h "MPIR_Err_create_code" || has_symbol e h "MPIR_Dup_fn"
        then mpich
        else if has_symbol e h "MPIR_Comm_world"
        then mpich
        else unknown)
mpich_or_none e h nonzero lacks o i = elim (Bool-cases (has_symbol e h "MPIR_Err_create_code")) [
  | inl first ↦ rw first (by_mpich nonzero lacks o i (inl first))
  | inr not_first ↦ elim (Bool-cases (has_symbol e h "MPIR_Dup_fn")) [
    | inl second ↦ rw (not_first, second) (by_mpich nonzero lacks o i (inr (inl second)))
    | inr not_second ↦ elim (Bool-cases (has_symbol e h "MPIR_Comm_world")) [
      | inl third ↦ rw (not_first, not_second, third) (by_mpich nonzero lacks o i (inr (inr third)))
      | inr not_third ↦
          rw (not_first, not_second, not_third)
            (no_symbol nonzero lacks o i not_first not_second not_third)
    ]
  ]
]

-- Every answer rests on symbols that the library has and on the absence of those that are tried
-- before: MS-MPI is tried first and on Windows only, then Open MPI, then Intel MPI, then the three
-- symbols of MPICH. The answer "unknown" means that there is no library, or that it has none of the
-- symbols.
pub identify_sound : (e : Env) (h : ℕ) → Recognised e h (unimpi_loader_identify_backend e h)
unfolding unimpi_loader_identify_backend
identify_sound e h = elim (Bool-cases (h == 0)) [
  | inl absent ↦ rw absent (no_library (ground arith))
  | inr present ↦
      let nonzero : h ≢ 0 = ground arith in
      elim (Bool-cases (is_windows e.os && has_symbol e h "MSMPI_Get_version")) [
        | inl ms ↦
            rw (present, ms) (by_msmpi nonzero (is_windows→eq e.os (ground arith)) (ground arith))
        | inr not_ms ↦
            let lacks = lacks_msmpi e h not_ms in
            elim (Bool-cases (has_symbol e h "ompi_mpi_comm_world")) [
              | inl ompi ↦ rw (present, not_ms, ompi) (by_openmpi nonzero lacks ompi)
              | inr not_ompi ↦ elim (Bool-cases (has_symbol e h "__I_MPI___cpu_core_type")) [
                | inl intel ↦
                    rw (present, not_ms, not_ompi, intel) (by_intelmpi nonzero lacks not_ompi intel)
                | inr not_intel ↦
                    rw (present, not_ms, not_ompi, not_intel)
                      (mpich_or_none e h nonzero lacks not_ompi not_intel)
              ]
            ]
      ]
]

-- The pairs of platform and implementation that UniMPI supports.
pub data Supported : Os → Backend → Type 0 where
  on_windows : Supported windows msmpi
  openmpi_macos : Supported macos openmpi
  mpich_macos : Supported macos mpich
  openmpi_linux : Supported linux openmpi
  mpich_linux : Supported linux mpich
  intelmpi_linux : Supported linux intelmpi

supported : (os : Os) (t : Backend) → backend_supported_on_platform os t ≡ true → Supported os t
unfolding backend_supported_on_platform
supported windows msmpi h = on_windows
supported macos openmpi h = openmpi_macos
supported macos mpich h = mpich_macos
supported linux openmpi h = openmpi_linux
supported linux mpich h = mpich_linux
supported linux intelmpi h = intelmpi_linux
supported _ _ h = cc

-- The check passes only for a supported pair of platform and implementation.
pub support-Supported :
    (e : Env) (t : Backend) (path : Option Text)
    → unimpi_loader_check_platform_support e t path ≡ ok
    → Supported e.os t
unfolding unimpi_loader_check_platform_support
support-Supported e t path h = supported e.os t (ground arith)
