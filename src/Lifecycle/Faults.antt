-- ===== src/Lifecycle/Faults.antt =====
-- Which calls go through a NULL function pointer.
use uni_mpi.Base.{
  ℕ, suc, Bool, true, false, none, ◌==◌, ◌&&◌, ◌≡◌, ◌≢◌, refl, arith, inl, inr, Bool-cases, Option,
  some, Option-cases,
}
use uni_mpi.Base.Text.{Text}
use uni_mpi.Loader.{unimpi_backends, lib_name_of}
use uni_mpi.Base.Int.{ℤ, pos, int_eq, int_eq_iff, increment}
use uni_mpi.Codes.{ok, thread_single}
use uni_mpi.Platform.{Env}
use uni_mpi.Init.Core.{init, finalize}
use uni_mpi.Lifecycle.State.{
  State, never, initializing, active, init_failed, finalizing, finalized, finalize_failed, Core,
  Outcome, fault, done, check_can_initialize,
}
use uni_mpi.Lifecycle.Loading.{load_backend, unimpi_ensure_loaded}
use uni_mpi.Lifecycle.Init.{
  unimpi_init, unimpi_init_thread, unimpi_finalize, initialize_backend, start_backend,
  call_backend_init, refusal, is_thread_level, unimpi_init_with, start_with, or_else,
}
use uni_mpi.Lifecycle.Invariant.{load_backend_cases, Inv, IsBalanced, IsFilled, holders}
use uni_mpi.Lifecycle.References.{ensure_loaded_cases}
use uni_mpi.Lifecycle.Starts.{idle}

-- A call returns.
abbrev pub Returns : Outcome → Type 0
Returns fault = ⊥
Returns (done code provided s) = Unit {0}

call_backend_init_filled :
    (e : Env) (thread_mode : Bool) (required : ℤ) (s : Core)
    → IsFilled s
    → call_backend_init e thread_mode required s ≢ none
unfolding call_backend_init
call_backend_init_filled e thread_mode required s full =
    let present = full "init" init in ground arith

start_backend_filled :
    (e : Env) (thread_mode : Bool) (required : ℤ) (s : Core)
    → IsFilled s
    → Returns (start_backend e thread_mode required s)
unfolding start_backend
start_backend_filled e thread_mode required s full =
    elim (Option-cases (call_backend_init e thread_mode required s)) [
      | inl absent ↦ absurd (call_backend_init_filled e thread_mode required s full absent)
      | inr ((code, provided), called) ↦ elim (Bool-cases (int_eq code (pos 0))) [
        | inl good ↦ rw (called, good, start_backend, Returns) tt
        | inr bad ↦ rw (called, bad, start_backend, Returns) tt
      ]
    ]

-- Where the library has to be loaded, or its table is full, starting MPI returns.
initialize_backend-Returns :
    (e : Env) (thread_mode : Bool) (required : ℤ) (t : ℕ) (s : Core)
    → IsBalanced t s
    → (s.backend_loaded ≡ true → IsFilled s)
    → Returns (initialize_backend e thread_mode required s)
unfolding initialize_backend
initialize_backend-Returns e thread_mode required t s b whole =
    let (loaded, s1) = unimpi_ensure_loaded e s in
    let s2 = record s1 { refcount = increment s1.refcount } in
    let (_, cases) = ensure_loaded_cases e t s b in
    elim cases [
      | inr (bad, _, _, _) ↦ rw (bad, initialize_backend, Returns) tt
      | inl (k, _, _, _, inl full) ↦
          rw (k, initialize_backend) (start_backend_filled e thread_mode required s2 full)
      | inl (k, _, _, _, inr (was_loaded, unchanged)) ↦
          rw (k, initialize_backend)
            (start_backend_filled e thread_mode required s2 (rw unchanged (whole was_loaded)))
    ]

-- MPI may be started, and the library that may be loaded then has a full table.
startable :
    (t : ℕ) (s : Core)
    → Inv t s
    → check_can_initialize s.state ≡ ok
    → (s.state ≡ init_failed → t ≡ 0)
    → s.backend_loaded ≡ true
    → IsFilled s
unfolding check_can_initialize
startable t s i k retry l = elim (i.filled l) [
  | inl full ↦ full
  | inr (unused, _) ↦
      let failed : s.state ≡ init_failed = ground arith in
      let held : holders s.state t ≡ 0 = rw failed (retry failed) in
      absurd (ground (arith, (rw held at i.balanced).1))
]

-- In a state with the invariant `unimpi_init` and `unimpi_init_thread` do not call through NULL, unless they are retried after a
-- failure while the tools interface holds the library open.
pub init-Returns :
    (e : Env) (required : ℤ) (has_provided : Bool) (t : ℕ) (s : Core)
    → Inv t s
    → (s.state ≡ init_failed → t ≡ 0)
    → Returns (unimpi_init e s) × Returns (unimpi_init_thread e required has_provided s)
unfolding unimpi_init unimpi_init_thread
init-Returns e required has_provided t s i retry =
    let checked = check_can_initialize s.state in
    let s1 = record s { state = initializing } in
    elim (Bool-cases (int_eq checked ok)) [
      | inr refused ↦ (
        rw (refused, Returns) tt,
        elim (Bool-cases (is_thread_level required && has_provided)) [
          | inr invalid ↦ rw (invalid, Returns) tt
          | inl valid ↦ rw (valid, refused, Returns) tt
        ],
      )
      | inl allowed ↦
          let k = (int_eq_iff checked ok).0 allowed in
          let (b, _) = idle t s i k in
          let whole = startable t s i k retry in
          (
            rw allowed (initialize_backend-Returns e false thread_single t s1 b whole),
            elim (Bool-cases (is_thread_level required && has_provided)) [
              | inr invalid ↦ rw (invalid, Returns) tt
              | inl valid ↦
                  rw (valid, allowed) (initialize_backend-Returns e true required t s1 b whole)
            ],
          )
    ]

pub only_active : (state : State) → refusal state ≡ ok → state ≡ active
only_active active k = refl
only_active never k = ground arith
only_active initializing k = ground arith
only_active init_failed k = ground arith
only_active finalizing k = ground arith
only_active finalized k = ground arith
only_active finalize_failed k = ground arith

pub active-IsFilled : (s : Core) (t : ℕ) → Inv t s → refusal s.state ≡ ok → IsFilled s
active-IsFilled s t i k =
    let is_active = only_active s.state k in
    let held : holders s.state t ≡ suc t = rw is_active refl in
    elim (i.filled (rw held at i.balanced).1) [
      | inl full ↦ full
      | inr (unused, _) ↦ absurd (ground (arith, is_active))
    ]

-- In a state with the invariant `unimpi_finalize` does not call through NULL.
pub finalize-Returns : (e : Env) (t : ℕ) (s : Core) → Inv t s → Returns (unimpi_finalize e s)
unfolding unimpi_finalize
finalize-Returns e t s i = elim (Bool-cases (int_eq (refusal s.state) ok)) [
  | inr refused ↦ rw (refused, Returns) tt
  | inl accepted ↦
      let k = (int_eq_iff (refusal s.state) ok).0 accepted in
      let full = active-IsFilled s t i k in
      let present : (s.vt.unimpi "finalize" == 0) ≡ false =
        let p = full "finalize" finalize in ground arith in
      rw (accepted, present, Returns) tt
]

-- In a state with the invariant in which the tools interface holds no reference,
-- `unimpi_init_with` does not call through NULL, whatever library is asked for.
pub init_with-Returns :
    (e : Env) (backend_name : Option Text) (s : Core)
    → Inv 0 s
    → Returns (unimpi_init_with e backend_name s)
unfolding unimpi_init_with start_with
init_with-Returns e none s i = tt
init_with-Returns e (some backend_name) s i =
    let checked = check_can_initialize s.state in
    let path = some (or_else (lib_name_of backend_name unimpi_backends) backend_name) in
    elim (Bool-cases (int_eq checked ok)) [
      | inr refused ↦ rw (refused, Returns) tt
      | inl allowed ↦
          let ((_, _, _, shut), _) = idle 0 s i ((int_eq_iff checked ok).0 allowed) in
          let s1 = (load_backend e path (record s { state = initializing })).1 in
          let (_, _, cases) = load_backend_cases e path (record s { state = initializing }) shut in
          elim cases [
            | inr (bad, _) ↦ rw (allowed, bad, Returns) tt
            | inl (k, is_open) ↦
                let full = is_open.2 in
                let present : (s1.vt.unimpi "init" == 0) ≡ false =
                  let p = full "init" init in ground arith in
                elim (Bool-cases (int_eq (e.call_init (s1.vt.unimpi "init")) (pos 0))) [
                  | inl good ↦ rw (allowed, k, present, good, Returns) tt
                  | inr bad ↦ rw (allowed, k, present, bad, Returns) tt
                ]
          ]
    ]
