-- ===== src/Lifecycle/Forever.antt =====
-- The state "finalized" of src/core.c is never left.
use mathlib.Core.Path.{subst}
use uni_mpi.Base.{ℕ, Bool, Option, some, none, ◌==◌, ◌&&◌, ◌≡◌, refl, inl, inr, Bool-cases}
use uni_mpi.Base.Text.{Text}
use uni_mpi.Base.Int.{ℤ, pos, int_eq, decrement}
use uni_mpi.Codes.{ok, err_finalized}
use uni_mpi.Platform.{Env}
use uni_mpi.Lifecycle.State.{State, finalized, Core, Outcome, fault, done, check_can_initialize}
use uni_mpi.Lifecycle.Loading.{unimpi_ensure_loaded}
use uni_mpi.Lifecycle.Init.{
  unimpi_init, unimpi_init_thread, unimpi_init_with, unimpi_finalize, is_thread_level,
}
use uni_mpi.Lifecycle.Mpit.{
  unimpi_mt_ref_acquire, unimpi_mt_ref_release, unimpi_mt_set_inited, unimpi_mpit_init_thread,
  unimpi_mpit_finalize,
}
use uni_mpi.Lifecycle.Invariant.{Inv, holders}
use uni_mpi.Lifecycle.References.{ensure_loaded_cases}
use uni_mpi.Lifecycle.Ends.{unload_if_unused_rest}

-- The state after a call that returns.
abbrev pub Leaves : State → Outcome → Type 0
Leaves state fault = Unit {0}
Leaves state (done code provided s) = s.state ≡ state

starts_refused :
    (e : Env) (required : ℤ) (has_provided : Bool) (backend_name : Option Text) (s : Core)
    → s.state ≡ finalized
    → (unimpi_init e s ≡ done err_finalized none s)
      × Leaves finalized (unimpi_init_thread e required has_provided s)
      × Leaves finalized (unimpi_init_with e backend_name s)
      × (unimpi_finalize e s ≡ done err_finalized none s)
unfolding unimpi_init unimpi_init_thread unimpi_init_with unimpi_finalize check_can_initialize
starts_refused e required has_provided none s f = (
  rw f refl,
  elim (Bool-cases (is_thread_level required && has_provided)) [
    | inl valid ↦ rw (valid, f, Leaves) refl
    | inr invalid ↦ rw (invalid, Leaves) f
  ],
  f,
  rw f refl,
)
starts_refused e required has_provided (some backend_name) s f = (
  rw f refl,
  elim (Bool-cases (is_thread_level required && has_provided)) [
    | inl valid ↦ rw (valid, f, Leaves) refl
    | inr invalid ↦ rw (invalid, Leaves) f
  ],
  rw (f, Leaves) refl,
  rw f refl,
)

pub tools_keep_state :
    (e : Env) (required : ℤ) (t : ℕ) (s : Core)
    → Inv t s
    → Leaves s.state (unimpi_mpit_init_thread e required s)
      × Leaves s.state (unimpi_mpit_finalize e s)
unfolding unimpi_mpit_init_thread unimpi_mpit_finalize unimpi_mt_ref_acquire unimpi_mt_ref_release
    unimpi_mt_set_inited
tools_keep_state e required t s i =
    let (rc, s1) = unimpi_ensure_loaded e s in
    let ((same, _), _) = ensure_loaded_cases e (holders s.state t) s i.balanced in
    (
      elim (Bool-cases (int_eq rc ok)) [
        | inr bad ↦ rw (bad, Leaves) same
        | inl good ↦ elim (Bool-cases (s1.vt.unimpi_mt "t_init_thread" == 0)) [
          | inl absent ↦ rw (good, absent, Leaves) tt
          | inr present ↦ rw (good, present, Leaves) same
        ]
      ],
      elim (Bool-cases (s.vt.unimpi_mt "t_finalize" == 0)) [
        | inl absent ↦ rw (absent, Leaves) tt
        | inr present ↦
            rw (present, Leaves)
              (unload_if_unused_rest
                (record s { mpit_inited = pos 0; refcount = decrement s.refcount })).0
      ],
    )

-- In a state with the invariant that is "finalized", `unimpi_init` and `unimpi_finalize` return
-- UNIMPI_ERR_FINALIZED and change nothing, and the state is "finalized" after every other call that
-- starts MPI, or starts or ends the tools interface, and returns.
pub finalized_forever :
    (e : Env) (required : ℤ) (has_provided : Bool) (backend_name : Option Text) (t : ℕ) (s : Core)
    → Inv t s
    → s.state ≡ finalized
    → (unimpi_init e s ≡ done err_finalized none s)
      × (unimpi_finalize e s ≡ done err_finalized none s)
      × Leaves finalized (unimpi_init_thread e required has_provided s)
      × Leaves finalized (unimpi_init_with e backend_name s)
      × Leaves finalized (unimpi_mpit_init_thread e required s)
      × Leaves finalized (unimpi_mpit_finalize e s)
finalized_forever e required has_provided backend_name t s i f =
    let (init, init_thread, init_with, finalize) =
      starts_refused e required has_provided backend_name s f in
    let (t_init, t_final) = tools_keep_state e required t s i in
    (
      init,
      finalize,
      init_thread,
      init_with,
      subst (λ state. Leaves state (unimpi_mpit_init_thread e required s)) f t_init,
      subst (λ state. Leaves state (unimpi_mpit_finalize e s)) f t_final,
    )
