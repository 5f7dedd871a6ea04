-- ===== src/Lifecycle/Outcomes.antt =====
-- What the calls of src/core.c do with the library's state, in all their branches.
use uni_mpi.Base.{
  Bool, true, false, ◌&&◌, ◌≡◌, ◌≢◌, refl, arith, inl, inr, Bool-cases, Option-cases,
}
use uni_mpi.Base.Int.{ℤ, pos, int_eq, int_eq_iff, increment}
use uni_mpi.Codes.{ok, thread_single}
use uni_mpi.Platform.{Env}
use uni_mpi.Lifecycle.State.{
  initializing, active, init_failed, Core, Outcome, fault, done, check_can_initialize,
}
use uni_mpi.Lifecycle.Loading.{unimpi_ensure_loaded}
use uni_mpi.Lifecycle.Init.{
  unimpi_init, unimpi_init_thread, initialize_backend, start_backend, call_backend_init,
  is_thread_level, abandon_init,
}

-- What starting MPI may do to the state: refuse and change nothing, fail, or succeed.
pub data Started (s : Core) : ℤ → Core → Type 0 where
  refused : {code : ℤ} → code ≢ ok → Started s code s
  failed :
      {code : ℤ} {s' : Core}
      → check_can_initialize s.state ≡ ok
      → code ≢ ok
      → s'.state ≡ init_failed
      → Started s code s'
  succeeded : {s' : Core} → check_can_initialize s.state ≡ ok → s'.state ≡ active → Started s ok s'

abbrev pub Starts : Core → Outcome → Type 0
Starts s fault = Unit {0}
Starts s (done code provided s') = Started s code s'

abandon_init_state : (s : Core) → (abandon_init s).state ≡ init_failed
unfolding abandon_init
abandon_init_state s = refl

start_backend-Starts :
    (e : Env) (thread_mode : Bool) (required : ℤ) (s0 s : Core)
    → check_can_initialize s0.state ≡ ok
    → Starts s0 (start_backend e thread_mode required s)
unfolding start_backend
start_backend-Starts e thread_mode required s0 s k =
    elim (Option-cases (call_backend_init e thread_mode required s)) [
      | inl absent ↦ rw (absent, start_backend, Starts) tt
      | inr ((code, provided), called) ↦ elim (Bool-cases (int_eq code (pos 0))) [
        | inl good ↦ rw (called, good, start_backend, Starts) (succeeded k refl)
        | inr bad ↦
            rw (called, bad, start_backend, Starts) (failed k (ground arith) (abandon_init_state s))
      ]
    ]

initialize_backend-Starts :
    (e : Env) (thread_mode : Bool) (required : ℤ) (s0 s : Core)
    → check_can_initialize s0.state ≡ ok
    → Starts s0 (initialize_backend e thread_mode required s)
unfolding initialize_backend
initialize_backend-Starts e thread_mode required s0 s k =
    let (loaded, s1) = unimpi_ensure_loaded e s in
    let s2 = record s1 { refcount = increment s1.refcount } in
    elim (Bool-cases (int_eq loaded ok)) [
      | inl good ↦
          rw (good, initialize_backend) (start_backend-Starts e thread_mode required s0 s2 k)
      | inr bad ↦ rw (bad, initialize_backend, Starts) (failed k (ground arith) refl)
    ]

-- `unimpi_init` and `unimpi_init_thread`, where they return: with UNIMPI_OK the state has been one
-- that `check_can_initialize` allows to start from, and MPI is active afterwards; with every other
-- code either nothing has changed, or the state has been one to start from and is "init failed".
pub init-Starts :
    (e : Env) (required : ℤ) (has_provided : Bool) (s : Core)
    → Starts s (unimpi_init e s) × Starts s (unimpi_init_thread e required has_provided s)
unfolding unimpi_init unimpi_init_thread
init-Starts e required has_provided s =
    let checked = check_can_initialize s.state in
    let s1 = record s { state = initializing } in
    elim (Bool-cases (int_eq checked ok)) [
      | inr refusing ↦ (
        rw (refusing, Starts) (refused (ground (arith, int_eq_iff checked ok))),
        elim (Bool-cases (is_thread_level required && has_provided)) [
          | inr invalid ↦ rw (invalid, Starts) (refused (ground arith))
          | inl valid ↦
              rw (valid, refusing, Starts) (refused (ground (arith, int_eq_iff checked ok)))
        ],
      )
      | inl allowed ↦
          let k = (int_eq_iff checked ok).0 allowed in
          (
            rw allowed (initialize_backend-Starts e false thread_single s s1 k),
            elim (Bool-cases (is_thread_level required && has_provided)) [
              | inr invalid ↦ rw (invalid, Starts) (refused (ground arith))
              | inl valid ↦ rw (valid, allowed) (initialize_backend-Starts e true required s s1 k)
            ],
          )
    ]
