-- ===== src/Lifecycle/Order.antt =====
-- The order in which the states of src/core.c follow one another.
use uni_mpi.Base.{
  ℕ, Bool, true, false, Option, none, some, ◌==◌, ◌≡◌, refl, arith, inl, inr, Bool-cases,
  if◌then◌else◌,
}
use uni_mpi.Base.Text.{Text}
use uni_mpi.Base.Int.{ℤ, pos, int_eq, int_eq_iff}
use uni_mpi.Codes.{ok}
use uni_mpi.Platform.{Env}
use uni_mpi.Loader.{unimpi_backends, lib_name_of}
use uni_mpi.Lifecycle.State.{
  State, never, initializing, active, init_failed, finalizing, finalized, finalize_failed, Core,
  Outcome, fault, done, check_can_initialize,
}
use uni_mpi.Lifecycle.Loading.{load_backend}
use uni_mpi.Lifecycle.Init.{
  unimpi_init, unimpi_init_thread, unimpi_init_with, start_with, abandon_init_with, or_else,
  unimpi_finalize, refusal, release_backend,
}
use uni_mpi.Lifecycle.Mpit.{unimpi_mpit_init_thread, unimpi_mpit_finalize}
use uni_mpi.Lifecycle.Invariant.{Inv}
use uni_mpi.Lifecycle.Outcomes.{Started, refused, failed, succeeded, Starts, init-Starts}
use uni_mpi.Lifecycle.Faults.{only_active}
use uni_mpi.Lifecycle.Final.{release_backend_state}
use uni_mpi.Lifecycle.Forever.{Leaves, tools_keep_state}

-- The life of MPI in one process: what one call may do.
pub data Moves : State → State → Type 0 where
  stays : {a : State} → Moves a a
  starts : Moves never active
  fails : Moves never init_failed
  retries : Moves init_failed active
  ends : Moves active finalized
  ends_badly : Moves active finalize_failed

abbrev pub Follows : State → Outcome → Type 0
Follows a fault = Unit {0}
Follows a (done code provided s) = Moves a s.state

abandon_init_with_state : (s : Core) → (abandon_init_with s).state ≡ init_failed
unfolding abandon_init_with
abandon_init_with_state s = refl

start_with-Starts :
    (e : Env) (s0 s : Core) → check_can_initialize s0.state ≡ ok → Starts s0 (start_with e s)
unfolding start_with
start_with-Starts e s0 s k =
    let init = s.vt.unimpi "init" in
    elim (Bool-cases (init == 0)) [
      | inl absent ↦ rw (absent, Starts) tt
      | inr present ↦ elim (Bool-cases (int_eq (e.call_init init) (pos 0))) [
        | inl good ↦ rw (present, good, Starts) (succeeded k refl)
        | inr bad ↦ rw (present, bad, Starts) (failed k (ground arith) (abandon_init_with_state s))
      ]
    ]

init_with-Starts :
    (e : Env) (backend_name : Option Text) (s : Core) → Starts s (unimpi_init_with e backend_name s)
unfolding unimpi_init_with
init_with-Starts e none s = refused (ground arith)
init_with-Starts e (some backend_name) s =
    let checked = check_can_initialize s.state in
    let path = some (or_else (lib_name_of backend_name unimpi_backends) backend_name) in
    let (loaded, s1) = load_backend e path (record s { state = initializing }) in
    elim (Bool-cases (int_eq checked ok)) [
      | inr refusing ↦ rw (refusing, Starts) (refused (ground (arith, int_eq_iff checked ok)))
      | inl allowed ↦
          let k = (int_eq_iff checked ok).0 allowed in
          elim (Bool-cases (int_eq loaded ok)) [
            | inl good ↦ rw (allowed, good) (start_with-Starts e s s1 k)
            | inr bad ↦
                rw (allowed, bad, Starts) (failed k (ground (arith, int_eq_iff loaded ok)) refl)
          ]
    ]

to_active : (a : State) → check_can_initialize a ≡ ok → Moves a active
unfolding check_can_initialize
to_active never k = starts
to_active init_failed k = retries
to_active initializing k = absurd (ground (arith, k))
to_active active k = stays
to_active finalizing k = absurd (ground (arith, k))
to_active finalized k = absurd (ground (arith, k))
to_active finalize_failed k = absurd (ground (arith, k))

to_failed : (a : State) → check_can_initialize a ≡ ok → Moves a init_failed
unfolding check_can_initialize
to_failed never k = fails
to_failed init_failed k = stays
to_failed initializing k = absurd (ground (arith, k))
to_failed active k = absurd (ground (arith, k))
to_failed finalizing k = absurd (ground (arith, k))
to_failed finalized k = absurd (ground (arith, k))
to_failed finalize_failed k = absurd (ground (arith, k))

Started-Moves : {s s' : Core} {code : ℤ} → Started s code s' → Moves s.state s'.state
Started-Moves (refused n) = stays
Started-Moves (failed k n st) = rw st (to_failed _ k)
Started-Moves (succeeded k st) = rw st (to_active _ k)

Starts→Follows : (s : Core) (o : Outcome) → Starts s o → Follows s.state o
Starts→Follows s fault h = tt
Starts→Follows s (done code provided s') h = Started-Moves h

Leaves→Follows : (a : State) (o : Outcome) → Leaves a o → Follows a o
Leaves→Follows a fault h = tt
Leaves→Follows a (done code provided s') h = rw h stays

ended : (b : Bool) → Moves active (if b then finalized else finalize_failed)
ended true = ends
ended false = ends_badly

released-Moves :
    (code : ℤ) (a : State) (s : Core) → a ≡ active → Moves a (release_backend code s).state
released-Moves code a s is_active =
    rw (is_active, release_backend_state code s) (ended (int_eq code (pos 0)))

finalize-Follows : (e : Env) (s : Core) → Follows s.state (unimpi_finalize e s)
unfolding unimpi_finalize
finalize-Follows e s =
    let finalize = s.vt.unimpi "finalize" in
    elim (Bool-cases (int_eq (refusal s.state) ok)) [
      | inr refusing ↦ rw (refusing, Follows) stays
      | inl accepted ↦
          let is_active = only_active s.state ((int_eq_iff (refusal s.state) ok).0 accepted) in
          elim (Bool-cases (finalize == 0)) [
            | inl absent ↦ rw (accepted, absent, Follows) tt
            | inr present ↦
                rw (accepted, present, Follows)
                  (released-Moves (e.call_finalize finalize) s.state
                    (record s { state = finalizing }) is_active)
          ]
    ]

-- In a state with the invariant, each of the six calls that start or end MPI or the tools interface
-- leaves the state as it is where it returns, or moves it along the life of MPI: from "never" or
-- "init failed" to "active", from "never" to "init failed", and from "active" to "finalized" or
-- "finalize failed".
pub calls_move :
    (e : Env) (required : ℤ) (has_provided : Bool) (backend_name : Option Text) (t : ℕ) (s : Core)
    → Inv t s
    → Follows s.state (unimpi_init e s)
      × Follows s.state (unimpi_init_thread e required has_provided s)
      × Follows s.state (unimpi_init_with e backend_name s)
      × Follows s.state (unimpi_finalize e s)
      × Follows s.state (unimpi_mpit_init_thread e required s)
      × Follows s.state (unimpi_mpit_finalize e s)
calls_move e required has_provided backend_name t s i =
    let (init, init_thread) = init-Starts e required has_provided s in
    let (t_init, t_final) = tools_keep_state e required t s i in
    (
      Starts→Follows s (unimpi_init e s) init,
      Starts→Follows s (unimpi_init_thread e required has_provided s) init_thread,
      Starts→Follows s (unimpi_init_with e backend_name s) (init_with-Starts e backend_name s),
      finalize-Follows e s,
      Leaves→Follows s.state (unimpi_mpit_init_thread e required s) t_init,
      Leaves→Follows s.state (unimpi_mpit_finalize e s) t_final,
    )
