-- ===== src/Lifecycle/Keeps.antt =====
-- Starting MPI keeps the invariant.
use uni_mpi.Base.{
  ℕ, zero, suc, Bool, true, none, [], ◌∷◌, ◌≡◌, ◌≢◌, refl, arith, ◌⊎◌, inl, inr, Bool-cases,
  Option-cases, ◌∙◌, String,
}
use uni_mpi.Base.Int.{ℤ, pos, int_eq, increment, decrement}
use uni_mpi.Platform.{Env}
use uni_mpi.Init.{unimpi_vtable_cleanup}
use uni_mpi.Lifecycle.State.{
  init_failed, Core, Outcome, fault, done, clear_backend_identity, unload, unload_if_unused,
}
use uni_mpi.Lifecycle.Loading.{unimpi_ensure_loaded}
use uni_mpi.Lifecycle.Invariant.{Inv, IsBalanced, IsFilled, IsEmpty, open_handles}
use uni_mpi.Lifecycle.References.{release-IsBalanced, ensure_loaded_cases}
use uni_mpi.Lifecycle.Init.{call_backend_init, abandon_init, start_backend, initialize_backend}

-- What holds after a call that returns.
abbrev pub Keeps : ℕ → Outcome → Type 0
Keeps t fault = Unit {0}
Keeps t (done code provided s) = Inv t s

pub IsBalanced-same :
    (n : ℕ) (s s' : Core)
    → s'.refcount ≡ s.refcount
    → s'.backend_loaded ≡ s.backend_loaded
    → s'.handle ≡ s.handle
    → s'.calls ≡ s.calls
    → IsBalanced n s
    → IsBalanced n s'
IsBalanced-same zero s s' r l h c b = ground arith
IsBalanced-same (suc n) s s' r l h c b = ground arith

pub unload_if_unused_vt : (s : Core) → (unload_if_unused s).vt ≡ s.vt
unfolding unload_if_unused unload
unload_if_unused_vt s = ground arith

-- Where MPI could not be started the reference is given back, and the table is empty.
pub abandon_init-Inv :
    (t : ℕ) (s : Core)
    → IsBalanced (suc t) s
    → Inv t (abandon_init s) × IsEmpty (abandon_init s) × ((abandon_init s).state ≡ init_failed)
unfolding abandon_init clear_backend_identity unimpi_vtable_cleanup
abandon_init-Inv t s b =
    let emptied = record s { vt = unimpi_vtable_cleanup s.vt } in
    let released = record emptied { refcount = decrement s.refcount } in
    let is_empty : (f : String) → (unload_if_unused released).vt.unimpi f ≡ 0 =
      λ f. rw (unload_if_unused_vt released) refl in
    let balanced =
      release-IsBalanced t emptied (IsBalanced-same (suc t) s emptied refl refl refl refl b) in
    (
      record {
        balanced =
            IsBalanced-same t (unload_if_unused released) (abandon_init s) refl refl refl refl
              balanced;
        is_settled = refl;
        filled = λ _. inr (refl, is_empty);
      },
      is_empty,
      refl,
    )

call_backend_init_empty :
    (e : Env) (thread_mode : Bool) (required : ℤ) (s : Core)
    → IsEmpty s
    → call_backend_init e thread_mode required s ≡ none
unfolding call_backend_init
call_backend_init_empty e thread_mode required s z = elim (Bool-cases thread_mode) [
  | inl on ↦ rw (on, z "init", z "init_thread") refl
  | inr off ↦ rw (off, z "init") refl
]

pub start_backend_empty :
    (e : Env) (thread_mode : Bool) (required : ℤ) (s : Core)
    → IsEmpty s
    → start_backend e thread_mode required s ≡ fault
unfolding start_backend
start_backend_empty e thread_mode required s z =
    rw (call_backend_init_empty e thread_mode required s z, start_backend) refl

start_backend-Keeps :
    (e : Env) (thread_mode : Bool) (required : ℤ) (t : ℕ) (s : Core)
    → IsBalanced (suc t) s
    → IsFilled s
    → Keeps t (start_backend e thread_mode required s)
unfolding start_backend
start_backend-Keeps e thread_mode required t s b full =
    elim (Option-cases (call_backend_init e thread_mode required s)) [
      | inl absent ↦ rw (absent, start_backend, Keeps) tt
      | inr ((code, provided), called) ↦ elim (Bool-cases (int_eq code (pos 0))) [
        | inl good ↦
            rw (called, good, start_backend, Keeps)
              (record { balanced = b; is_settled = refl; filled = λ _. inl full })
        | inr bad ↦ rw (called, bad, start_backend, Keeps) (abandon_init-Inv t s b).0
      ]
    ]

-- One more reference to a library that is loaded, or was loaded before.
pub counted :
    (t : ℕ) (s s1 : Core)
    → IsBalanced t s
    → s1.refcount ≡ s.refcount
    → s1.backend_loaded ≡ true
    → s1.handle ≢ 0
    → open_handles s1.calls ≡ s1.handle ∷ []
    → IsBalanced (suc t) (record s1 { refcount = increment s1.refcount })
counted zero s s1 b same is_loaded nonzero only = ground arith
counted (suc t) s s1 b same is_loaded nonzero only = ground arith

-- The table of a loaded library is full, or it has been emptied.
abbrev pub IsWhole : Core → Type 0
IsWhole s = s.backend_loaded ≡ true → IsFilled s ⊎ IsEmpty s

pub initialize_backend-Keeps :
    (e : Env) (thread_mode : Bool) (required : ℤ) (t : ℕ) (s : Core)
    → IsBalanced t s
    → IsWhole s
    → Keeps t (initialize_backend e thread_mode required s)
unfolding initialize_backend
initialize_backend-Keeps e thread_mode required t s b whole =
    let (loaded, s1) = unimpi_ensure_loaded e s in
    let s2 = record s1 { refcount = increment s1.refcount } in
    let ((_, same), cases) = ensure_loaded_cases e t s b in
    elim cases [
      | inr (bad, none_held, is_unloaded, is_shut) ↦
          rw (bad, initialize_backend, Keeps)
            (record {
              balanced =
                  rw none_held (same ∙ (rw none_held at b).0, is_unloaded, is_shut.0, is_shut.1);
              is_settled = refl;
              filled = λ h. absurd (ground (arith, is_unloaded));
            })
      | inl (k, is_loaded, nonzero, only, content) ↦
          let held = counted t s s1 b same is_loaded nonzero only in
          elim content [
            | inl full ↦
                rw (k, initialize_backend)
                  (start_backend-Keeps e thread_mode required t s2 held full)
            | inr (was_loaded, unchanged) ↦ elim (whole was_loaded) [
              | inl full ↦
                  rw (k, initialize_backend)
                    (start_backend-Keeps e thread_mode required t s2 held (rw unchanged full))
              | inr is_empty ↦
                  rw
                    (
                      k,
                      initialize_backend,
                      start_backend_empty e thread_mode required s2 (rw unchanged is_empty),
                      Keeps,
                    )
                    tt
            ]
          ]
    ]
