-- ===== src/Lifecycle/Init.antt =====
-- `unimpi_init`, `unimpi_init_thread`, `unimpi_init_with` and `unimpi_finalize` of src/core.c.
use uni_mpi.Base.{Bool, true, false, not, Option, none, some, if◌then◌else◌, ◌==◌, ◌&&◌, ◌||◌}
use uni_mpi.Base.Text.{Text}
use uni_mpi.Base.Int.{ℤ, pos, int_eq, increment, decrement}
use uni_mpi.Codes.{
  ok, err_no_backend, err_backend_load, err_invalid_argument, err_not_initialized, err_finalized,
  err_invalid_state, thread_single, thread_funneled, thread_serialized, thread_multiple,
}
use uni_mpi.Platform.{Env}
use uni_mpi.Loader.{unimpi_backends, lib_name_of}
use uni_mpi.Init.{unimpi_vtable_cleanup}
use uni_mpi.Lifecycle.State.{
  State, never, initializing, active, init_failed, finalizing, finalized, finalize_failed, Core,
  Outcome, fault, done, check_can_initialize, clear_backend_identity, unload, unload_if_unused,
}
use uni_mpi.Lifecycle.Loading.{load_backend, unimpi_ensure_loaded}

-- The library's MPI_Init or MPI_Init_thread through the table: the code, and what `*provided`
-- holds afterwards; `none` is a call through NULL.
unfoldable pub call_backend_init : Env → Bool → ℤ → Core → Option (ℤ × Option ℤ)
call_backend_init e thread_mode required s =
    let init = s.vt.unimpi "init" in
    let init_thread = s.vt.unimpi "init_thread" in
    if thread_mode && not (init_thread == 0)
    then (let (code, level) = e.call_init_thread init_thread required in some (code, some level))
    else if init == 0
    then none
    else some (e.call_init init, if thread_mode then some thread_single else none)

-- What follows a failure of the library's own initialisation.
unfoldable pub abandon_init : Core → Core
unfolding unload_if_unused clear_backend_identity
abandon_init s =
    let cleaned = record s { vt = unimpi_vtable_cleanup s.vt; refcount = decrement s.refcount } in
    record (clear_backend_identity (unload_if_unused cleaned)) { state = init_failed }

abbrev level_of : Option ℤ → ℤ
level_of none = thread_single
level_of (some level) = level

-- From the call of the library's initialisation on, with the reference already taken.
unfoldable pub start_backend : Env → Bool → ℤ → Core → Outcome
unfolding abandon_init
start_backend e thread_mode required s = elim (call_backend_init e thread_mode required s) [
  | none ↦ fault
  | some (code, provided) ↦
      if int_eq code (pos 0)
      then (done ok provided (record s {
        state = active;
        thread_level = if thread_mode then level_of provided else s.thread_level;
      }))
      else done err_backend_load provided (abandon_init s)
]

unfoldable pub initialize_backend : Env → Bool → ℤ → Core → Outcome
initialize_backend e thread_mode required s =
    let (loaded, s1) = unimpi_ensure_loaded e s in
    if int_eq loaded ok
    then start_backend e thread_mode required (record s1 { refcount = increment s1.refcount })
    else done loaded none (record s1 { state = init_failed })

unfoldable pub unimpi_init : Env → Core → Outcome
unimpi_init e s =
    let checked = check_can_initialize s.state in
    if int_eq checked ok
    then initialize_backend e false thread_single (record s { state = initializing })
    else done checked none s

abbrev pub is_thread_level : ℤ → Bool
is_thread_level n =
    int_eq n thread_single
    || (int_eq n thread_funneled || (int_eq n thread_serialized || int_eq n thread_multiple))

-- `has_provided` says whether `provided` is not NULL.
unfoldable pub unimpi_init_thread : Env → ℤ → Bool → Core → Outcome
unimpi_init_thread e required has_provided s =
    let checked = check_can_initialize s.state in
    if is_thread_level required && has_provided
    then if int_eq checked ok
      then initialize_backend e true required (record s { state = initializing })
      else done checked none s
    else done err_invalid_argument none s

abbrev pub or_else : Option Text → Text → Text
or_else none t = t
or_else (some t') t = t'

-- The failure branch of `unimpi_init_with` closes the library whatever the count is, and leaves
-- the count and the flag as they are.
unfoldable pub abandon_init_with : Core → Core
unfolding unload clear_backend_identity
abandon_init_with s =
    let cleaned = record s { vt = unimpi_vtable_cleanup s.vt } in
    let unloaded = if cleaned.handle == 0 then cleaned else unload cleaned in
    record (clear_backend_identity unloaded) { state = init_failed }

-- `unimpi.init(NULL, NULL)` and what follows.
unfoldable pub start_with : Env → Core → Outcome
unfolding abandon_init_with
start_with e s =
    let init = s.vt.unimpi "init" in
    if init == 0
    then fault
    else if int_eq (e.call_init init) (pos 0)
    then (done ok none
        (record s { refcount = increment s.refcount; backend_loaded = true; state = active }))
    else done err_backend_load none (abandon_init_with s)

unfoldable pub unimpi_init_with : Env → Option Text → Core → Outcome
unimpi_init_with e none s = done err_no_backend none s
unimpi_init_with e (some backend_name) s =
    let checked = check_can_initialize s.state in
    let path = some (or_else (lib_name_of backend_name unimpi_backends) backend_name) in
    let (loaded, s1) = load_backend e path (record s { state = initializing }) in
    if int_eq checked ok
    then if int_eq loaded ok
      then start_with e s1
      else done loaded none (record s1 { state = init_failed })
    else done checked none s

-- What `unimpi_finalize` does once the library's MPI_Finalize has returned `code`.
unfoldable pub release_backend : ℤ → Core → Core
unfolding unload_if_unused clear_backend_identity
release_backend code s =
    let cleaned = record s { vt = unimpi_vtable_cleanup s.vt; refcount = decrement s.refcount } in
    record (clear_backend_identity (unload_if_unused cleaned)) {
      thread_level = thread_single;
      state = if int_eq code (pos 0) then finalized else finalize_failed;
    }

-- The code that refuses `unimpi_finalize` in a state.
abbrev pub refusal : State → ℤ
refusal never = err_not_initialized
refusal init_failed = err_not_initialized
refusal finalized = err_finalized
refusal active = ok
refusal _ = err_invalid_state

unfoldable pub unimpi_finalize : Env → Core → Outcome
unfolding release_backend
unimpi_finalize e s =
    let finalize = s.vt.unimpi "finalize" in
    let code = e.call_finalize finalize in
    if int_eq (refusal s.state) ok
    then (if finalize == 0
        then fault
        else done (if int_eq code (pos 0) then ok else code) none
            (release_backend code (record s { state = finalizing })))
    else done (refusal s.state) none s
