-- ===== src/Lifecycle/Starts.antt =====
-- The three calls that start MPI keep the invariant.
use uni_mpi.Base.{
  ℕ, Bool, true, false, Option, some, none, [], ◌==◌, ◌&&◌, ◌≡◌, refl, arith, inl, inr, Bool-cases,
  ◌∙◌,
}
use uni_mpi.Base.Text.{Text}
use uni_mpi.Base.Int.{ℤ, pos, int_eq, int_eq_iff}
use uni_mpi.Codes.{ok, thread_single}
use uni_mpi.Platform.{Env}
use uni_mpi.Init.{unimpi_vtable_cleanup}
use uni_mpi.Loader.{unimpi_backends, lib_name_of}
use uni_mpi.Lifecycle.State.{
  initializing, Core, check_can_initialize, clear_backend_identity, unload,
}
use uni_mpi.Lifecycle.Loading.{load_backend}
use uni_mpi.Lifecycle.Invariant.{
  Inv, IsBalanced, IsOpen, holders, open_handles, erase_only, load_backend_cases,
}
use uni_mpi.Lifecycle.Init.{
  unimpi_init, unimpi_init_thread, unimpi_init_with, start_with, abandon_init_with, is_thread_level,
  or_else,
}
use uni_mpi.Lifecycle.Keeps.{Keeps, IsWhole, IsBalanced-same, initialize_backend-Keeps}

-- A state from which MPI may be started holds no reference of MPI's.
pub idle :
    (t : ℕ) (s : Core)
    → Inv t s
    → check_can_initialize s.state ≡ ok
    → IsBalanced t (record s { state = initializing }) × IsWhole s
unfolding check_can_initialize
idle t s i k =
    let held : holders s.state t ≡ t = ground arith in
    (
      IsBalanced-same t s (record s { state = initializing }) refl refl refl refl
          (rw held at i.balanced),
      λ l. elim (i.filled l) [ inl full ↦ inl full | inr (_, z) ↦ inr z ],
    )

-- `unimpi_init` that returns keeps the invariant, and MPI holds a reference exactly if it is now
-- active.
pub unimpi_init-Keeps : (e : Env) (t : ℕ) (s : Core) → Inv t s → Keeps t (unimpi_init e s)
unfolding unimpi_init
unimpi_init-Keeps e t s i =
    let checked = check_can_initialize s.state in
    elim (Bool-cases (int_eq checked ok)) [
      | inr refused ↦ rw (refused, Keeps) i
      | inl allowed ↦
          let (b, whole) = idle t s i ((int_eq_iff checked ok).0 allowed) in
          rw allowed (
            initialize_backend-Keeps e false thread_single t (record s { state = initializing }) b
              whole)
    ]

-- `unimpi_init_thread` that returns keeps the invariant, whatever level is asked for.
pub unimpi_init_thread-Keeps :
    (e : Env) (required : ℤ) (has_provided : Bool) (t : ℕ) (s : Core)
    → Inv t s
    → Keeps t (unimpi_init_thread e required has_provided s)
unfolding unimpi_init_thread
unimpi_init_thread-Keeps e required has_provided t s i =
    let checked = check_can_initialize s.state in
    elim (Bool-cases (is_thread_level required && has_provided)) [
      | inr invalid ↦ rw (invalid, Keeps) i
      | inl valid ↦ elim (Bool-cases (int_eq checked ok)) [
        | inr refused ↦ rw (valid, refused, Keeps) i
        | inl allowed ↦
            let (b, whole) = idle t s i ((int_eq_iff checked ok).0 allowed) in
            rw (valid, allowed)
              (initialize_backend-Keeps e true required t (record s { state = initializing }) b
                whole)
      ]
    ]

abandon_init_with-Inv :
    (s : Core)
    → s.refcount ≡ pos 0
    → s.backend_loaded ≡ false
    → IsOpen s
    → Inv 0 (abandon_init_with s)
unfolding abandon_init_with clear_backend_identity unload
abandon_init_with-Inv s r l (nonzero, only, _) =
    let emptied = record s { vt = unimpi_vtable_cleanup s.vt } in
    let closes : (open_handles (abandon_init_with s).calls ≡ [])
        × ((abandon_init_with s).handle ≡ 0) =
      (ground (arith, erase_only s.handle), ground arith) in
    let same : ((abandon_init_with s).refcount ≡ s.refcount)
        × ((abandon_init_with s).backend_loaded ≡ s.backend_loaded) =
      (ground arith, ground arith) in
    record {
      balanced = (same.0 ∙ r, same.1 ∙ l, closes.1, closes.0);
      is_settled = refl;
      filled = λ h. absurd (ground (arith, same.1));
    }

start_with-Keeps :
    (e : Env) (s : Core)
    → s.refcount ≡ pos 0
    → s.backend_loaded ≡ false
    → IsOpen s
    → Keeps 0 (start_with e s)
unfolding start_with
start_with-Keeps e s r l is_open =
    let init = s.vt.unimpi "init" in
    elim (Bool-cases (init == 0)) [
      | inl absent ↦ rw (absent, Keeps) tt
      | inr present ↦ elim (Bool-cases (int_eq (e.call_init init) (pos 0))) [
        | inl good ↦
            rw (present, good, Keeps)
              (record {
                balanced = (rw r refl, refl, is_open.0, is_open.1);
                is_settled = refl;
                filled = λ _. inl is_open.2;
              })
        | inr bad ↦ rw (present, bad, Keeps) (abandon_init_with-Inv s r l is_open)
      ]
    ]

-- In a state with the invariant in which the tools interface holds no reference, `unimpi_init_with`
-- that returns keeps the invariant: a library that it has opened and cannot use is closed again.
pub unimpi_init_with-Keeps :
    (e : Env) (backend_name : Option Text) (s : Core)
    → Inv 0 s
    → Keeps 0 (unimpi_init_with e backend_name s)
unfolding unimpi_init_with
unimpi_init_with-Keeps e none s i = i
unimpi_init_with-Keeps e (some backend_name) s i =
    let checked = check_can_initialize s.state in
    let path = some (or_else (lib_name_of backend_name unimpi_backends) backend_name) in
    elim (Bool-cases (int_eq checked ok)) [
      | inr refused ↦ rw (refused, Keeps) i
      | inl allowed ↦
          let ((r, l, _, shut), _) = idle 0 s i ((int_eq_iff checked ok).0 allowed) in
          let s0 = record s { state = initializing } in
          let s1 = (load_backend e path s0).1 in
          let ((_, same_count), same_flag, cases) = load_backend_cases e path s0 shut in
          elim cases [
            | inl (k, is_open) ↦
                rw (allowed, k) (start_with-Keeps e s1 (same_count ∙ r) (same_flag ∙ l) is_open)
            | inr (bad, is_shut) ↦
                rw (allowed, bad, Keeps)
                  (record {
                    balanced = (same_count ∙ r, same_flag ∙ l, is_shut.0, is_shut.1);
                    is_settled = refl;
                    filled = λ h. absurd (ground (arith, same_flag ∙ l));
                  })
          ]
    ]
