-- ===== src/Tests/Calls.antt =====
-- Starting and ending MPI.
use uni_mpi.Base.{ℕ, true, Option, some, none, [], ◌∷◌, if◌then◌else◌, ◌≡◌, ◌≢◌, refl, arith}
use uni_mpi.Base.Text.{codes}
use uni_mpi.Base.Int.{ℤ, pos, int_eq}
use uni_mpi.Codes.{ok, thread_multiple, err_backend_load}
use uni_mpi.Loader.{
  unimpi_backends, lib_name_of, unimpi_loader_load, path_names_standard_abi,
  unimpi_loader_identify_backend, unimpi_loader_check_platform_support,
}
use uni_mpi.Init.{unimpi_vtable_init, unimpi_vtable_validate_core, init_backend}
use uni_mpi.Backends.Mpich.{unimpi_vtable_init_mpich}
use uni_mpi.Lifecycle.State.{
  Core, Outcome, fault, done, start, initializing, init_failed, finalized, finalize_failed,
}
use uni_mpi.Lifecycle.Loading.{unimpi_ensure_loaded, load_backend, load, fill}
use uni_mpi.Lifecycle.Init.{
  unimpi_init, unimpi_init_thread, unimpi_init_with, unimpi_finalize, or_else,
}
use uni_mpi.Lifecycle.Mpit.{unimpi_mpit_init_thread}
use uni_mpi.Lifecycle.Invariant.{IsBalanced, IsEmpty, holders, settled, open_handles, start-Inv}
use uni_mpi.Lifecycle.Keeps.{Keeps}
use uni_mpi.Lifecycle.Starts.{unimpi_init_with-Keeps}
use uni_mpi.Lifecycle.Ends.{unimpi_mpit_init_thread-Keeps}
use uni_mpi.Lifecycle.Traces.{Reach, begin, by_init, Reach-IsBalanced}
use uni_mpi.Lifecycle.Faults.{Returns, init_with-Returns, init-Returns, finalize-Returns}
use uni_mpi.Lifecycle.Outcomes.{Starts, init-Starts}
use uni_mpi.Lifecycle.Final.{Left, finalize_result}
use uni_mpi.Lifecycle.Tools.{retry_faults, init_with_leaks}
use uni_mpi.Tests.Demo.{
  mpich_linux_env, failing_env, with_tools, with_tools-Inv, in_use, in_use-Inv,
}

abbrev none_held : ℕ
none_held = 0

not_retried : start.state ≡ init_failed → none_held ≡ 0
not_retried h = refl

init-Returns_example :
    Returns (unimpi_init mpich_linux_env start)
    × Returns (unimpi_init_thread mpich_linux_env thread_multiple true start)
init-Returns_example =
    init-Returns mpich_linux_env thread_multiple true 0 start start-Inv not_retried

init-Starts_example :
    Starts start (unimpi_init mpich_linux_env start)
    × Starts start (unimpi_init_thread mpich_linux_env thread_multiple true start)
init-Starts_example = init-Starts mpich_linux_env thread_multiple true start

finalize-Returns_example : Returns (unimpi_finalize mpich_linux_env in_use)
finalize-Returns_example = finalize-Returns mpich_linux_env 1 in_use in_use-Inv

finalize_result_example :
    (s : Core) × (unimpi_finalize mpich_linux_env in_use ≡ done (pos 0) none s)
    × (s.state ≡ (if int_eq (pos 0) (pos 0) then finalized else finalize_failed))
    × IsEmpty s
    × (s.vt.unimpi_mt ≡ in_use.vt.unimpi_mt)
    × Left 1 12 s
finalize_result_example = finalize_result mpich_linux_env 1 in_use in_use-Inv refl

-- What a call that returns gives back.
returned :
    (o : Outcome)
    → Returns o
    → (code : ℤ) × (provided : Option ℤ) × (s : Core) × (o ≡ done code provided s)
returned (done code provided s) r = (code, provided, s, refl)
returned fault r = absurd r

init_returned :
    (code : ℤ) × (provided : Option ℤ) × (s : Core) × (unimpi_init mpich_linux_env start
      ≡ done code provided s)
init_returned = returned (unimpi_init mpich_linux_env start) init-Returns_example.0

started_reached : Reach 0 init_returned.2
started_reached = by_init mpich_linux_env init_returned.3 begin

Reach-IsBalanced_example :
    IsBalanced (holders init_returned.2.state 0) init_returned.2
    × (settled init_returned.2.state ≡ true)
Reach-IsBalanced_example = Reach-IsBalanced started_reached

unimpi_init_with-Keeps_example :
    Keeps 0 (unimpi_init_with mpich_linux_env (some (codes "mpich")) start)
unimpi_init_with-Keeps_example =
    unimpi_init_with-Keeps mpich_linux_env (some (codes "mpich")) start start-Inv

unimpi_mpit_init_thread-Keeps_example :
    Keeps
      (if int_eq (unimpi_ensure_loaded mpich_linux_env in_use).0 ok then 2 else 1)
      (unimpi_mpit_init_thread mpich_linux_env thread_multiple in_use)
unimpi_mpit_init_thread-Keeps_example =
    unimpi_mpit_init_thread-Keeps mpich_linux_env thread_multiple 1 in_use in_use-Inv

init_fails : failing_env.call_init (with_tools.vt.unimpi "init") ≢ pos 0
init_fails h = ground arith

retry_faults_example :
    (s : Core) × (unimpi_init failing_env with_tools ≡ done err_backend_load none s)
    × (unimpi_init mpich_linux_env s ≡ fault)
retry_faults_example =
    retry_faults failing_env mpich_linux_env 0 with_tools with_tools-Inv refl init_fails

mpich_loads :
    let path = some (or_else (lib_name_of (codes "mpich") unimpi_backends) (codes "mpich")) in
    (load_backend mpich_linux_env path (record with_tools { state = initializing })).0 ≡ ok
unfolding load_backend load fill unimpi_loader_load path_names_standard_abi unimpi_vtable_init
    unimpi_vtable_validate_core init_backend unimpi_vtable_init_mpich unimpi_loader_identify_backend
    unimpi_loader_check_platform_support lib_name_of unimpi_backends
mpich_loads = refl

init_with_leaks_example :
    (s : Core) × (unimpi_init_with mpich_linux_env (some (codes "mpich")) with_tools
      ≡ done ok none s)
    × (open_handles s.calls ≡ s.handle ∷ 12 ∷ [])
init_with_leaks_example =
    init_with_leaks mpich_linux_env 0 (codes "mpich") with_tools with_tools-Inv refl mpich_loads
      refl

init_with-Returns_example : Returns (unimpi_init_with mpich_linux_env (some (codes "mpich")) start)
init_with-Returns_example = init_with-Returns mpich_linux_env (some (codes "mpich")) start start-Inv
