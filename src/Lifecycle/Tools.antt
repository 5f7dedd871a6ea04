-- ===== src/Lifecycle/Tools.antt =====
-- Two uses of the tools interface together with MPI's own start that go wrong.
use uni_mpi.Base.{
  ℕ, suc, true, false, Option, some, none, [], ◌∷◌, ◌==◌, ◌≡◌, ◌≢◌, refl, arith, inl, inr,
  Bool-cases, ◌∙◌,
}
use uni_mpi.Base.Text.{Text}
use uni_mpi.Base.Int.{pos, int_eq, int_eq_iff, increment}
use uni_mpi.Codes.{ok, err_backend_load, thread_single}
use uni_mpi.Platform.{Env}
use uni_mpi.Lifecycle.State.{
  opened, save_backend_identity, unload, never, initializing, active, Core, fault, done,
  check_can_initialize,
}
use uni_mpi.Lifecycle.Loading.{load, fill, load_backend}
use uni_mpi.Init.Core.{init}
use uni_mpi.Loader.{unimpi_backends, lib_name_of}
use uni_mpi.Lifecycle.Init.{
  or_else, start_with, unimpi_init, initialize_backend, start_backend, call_backend_init,
  abandon_init, unimpi_init_with,
}
use uni_mpi.Lifecycle.Invariant.{
  fill_cases, load_handle, Inv, IsBalanced, IsFilled, holders, open_handles,
}
use uni_mpi.Lifecycle.References.{ensure_loaded_again}
use uni_mpi.Lifecycle.Keeps.{abandon_init-Inv, start_backend_empty}

unimpi_init_loaded :
    (e : Env) (s : Core)
    → check_can_initialize s.state ≡ ok
    → s.backend_loaded ≡ true
    → unimpi_init e s
      ≡ start_backend e false thread_single
          (record s { state = initializing; refcount = increment s.refcount })
unfolding unimpi_init initialize_backend
unimpi_init_loaded e s k l =
    let again = ensure_loaded_again e (record s { state = initializing }) l in
    simp (k, again, initialize_backend)

called_init :
    (e : Env) (s : Core)
    → (s.vt.unimpi "init" == 0) ≡ false
    → call_backend_init e false thread_single s ≡ some (e.call_init (s.vt.unimpi "init"), none)
unfolding call_backend_init
called_init e s present = rw present refl

start_backend_fails :
    (e : Env) (s : Core)
    → IsFilled s
    → e.call_init (s.vt.unimpi "init") ≢ pos 0
    → start_backend e false thread_single s ≡ done err_backend_load none (abandon_init s)
unfolding start_backend
start_backend_fails e s full c =
    let present : (s.vt.unimpi "init" == 0) ≡ false = let p = full "init" init in ground arith in
    let bad : int_eq (e.call_init (s.vt.unimpi "init")) (pos 0) ≡ false =
      ground (arith, int_eq_iff (e.call_init (s.vt.unimpi "init")) (pos 0)) in
    let called : call_backend_init e false thread_single s
        ≡ some (e.call_init (s.vt.unimpi "init"), none) =
      called_init e s present in
    rw (called, bad, start_backend) refl

-- In a state with the invariant, before MPI was ever started and with the tools interface holding the
-- library open, a failed MPI_Init: `unimpi_init` reports it, and
-- when it is tried again, in whatever environment, it calls through NULL.
pub retry_faults :
    (e e' : Env) (t : ℕ) (s : Core)
    → Inv (suc t) s
    → s.state ≡ never
    → e.call_init (s.vt.unimpi "init") ≢ pos 0
    → (s' : Core) × (unimpi_init e s ≡ done err_backend_load none s') × (unimpi_init e' s' ≡ fault)
unfolding check_can_initialize
retry_faults e e' t s i n c =
    let held : holders s.state (suc t) ≡ suc t = rw n refl in
    let b : IsBalanced (suc t) s = rw held at i.balanced in
    let full : IsFilled s = elim (i.filled b.1) [
      | inl full ↦ full
      | inr (unused, _) ↦ absurd (ground (arith, n))
    ] in
    let s1 = record s { state = initializing; refcount = increment s.refcount } in
    let b1 : IsBalanced (suc (suc t)) s1 = ground arith in
    let (i2, z, failed) = abandon_init-Inv (suc t) s1 b1 in
    let s2 = abandon_init s1 in
    let held2 : holders s2.state (suc t) ≡ suc t = rw failed refl in
    let loaded2 = (rw held2 at i2.balanced).1 in
    let s3 = record s2 { state = initializing; refcount = increment s2.refcount } in
    (
      s2,
      unimpi_init_loaded e s (rw n refl) b.1 ∙ start_backend_fails e s1 full c,
      unimpi_init_loaded e' s2 (rw failed refl) loaded2
          ∙ start_backend_empty e' false thread_single s3 z,
    )

-- A load that succeeds opens the library it leaves in `g_handle`, whatever stood there.
load_backend_opens :
    (e : Env) (path : Option Text) (s : Core)
    → let (code, s1) = load_backend e path s in
      code ≡ ok → (s1.calls ≡ opened s1.handle ∷ s.calls) × IsFilled s1
unfolding load_backend load fill save_backend_identity unload
load_backend_opens e path s k =
    let (loaded, s1) = load e path s in
    let (filled, s2) = fill e s1 in
    let (_, _, _, _, _, content) = fill_cases e s1 in
    elim (Bool-cases (int_eq loaded ok)) [
      | inr bad ↦ absurd (ground (arith, int_eq_iff loaded ok))
      | inl good ↦ elim content [
        | inr unfilled ↦ absurd (ground (arith, int_eq_iff filled ok))
        | inl (k2, full) ↦
            let nonzero = load_handle e path ((int_eq_iff loaded ok).0 good) in
            (rw (good, k2) (ground arith), rw (good, k2) full)
      ]
    ]

-- In a state with the invariant, before MPI was ever started and with the tools interface holding the
-- library open, an `unimpi_init_with` that can load its library and start MPI returns UNIMPI_OK,
-- what it has opened stands in the handle, and the library of the tools interface is open beside it.
pub init_with_leaks :
    (e : Env) (t : ℕ) (backend_name : Text) (s : Core)
    → Inv (suc t) s
    → s.state ≡ never
    → let path = some (or_else (lib_name_of backend_name unimpi_backends) backend_name) in
      let (code, s1) = load_backend e path (record s { state = initializing }) in
      code ≡ ok
      → e.call_init (s1.vt.unimpi "init") ≡ pos 0
      → (s' : Core) × (unimpi_init_with e (some backend_name) s ≡ done ok none s')
        × (open_handles s'.calls ≡ s'.handle ∷ s.handle ∷ [])
unfolding unimpi_init_with start_with check_can_initialize
init_with_leaks e t backend_name s i n k c =
    let path = some (or_else (lib_name_of backend_name unimpi_backends) backend_name) in
    let (code, s1) = load_backend e path (record s { state = initializing }) in
    let (opens, full) = load_backend_opens e path (record s { state = initializing }) k in
    let held : holders s.state (suc t) ≡ suc t = rw n refl in
    let only = (rw held at i.balanced).3 in
    let present : (s1.vt.unimpi "init" == 0) ≡ false = let p = full "init" init in ground arith in
    (
      record s1 { refcount = increment s1.refcount; backend_loaded = true; state = active },
      simp (n, k, c, present),
      rw (opens, only) refl,
    )
