-- ===== src/Lifecycle/Ends.antt =====
-- `unimpi_finalize` and the tools interface keep the invariant.
use mathlib.Core.Path.{subst}
use uni_mpi.Base.{
  ℕ, suc, true, ◌==◌, if◌then◌else◌, ◌≡◌, refl, sym, arith, inl, inr, Bool-cases, ◌∙◌, String,
}
use uni_mpi.Base.Int.{ℤ, pos, int_eq, int_eq_iff, increment, decrement}
use uni_mpi.Codes.{ok}
use uni_mpi.Platform.{Env}
use uni_mpi.Init.{unimpi_vtable_cleanup}
use uni_mpi.Lifecycle.State.{
  State, never, initializing, active, init_failed, finalizing, finalized, finalize_failed, Core,
  clear_backend_identity, unload, unload_if_unused,
}
use uni_mpi.Lifecycle.Loading.{unimpi_ensure_loaded}
use uni_mpi.Lifecycle.Invariant.{Inv, IsBalanced, holders}
use uni_mpi.Lifecycle.References.{release-IsBalanced, ensure_loaded_cases}
use uni_mpi.Lifecycle.Init.{release_backend, refusal, unimpi_finalize}
use uni_mpi.Lifecycle.Mpit.{
  unimpi_mt_ref_acquire, unimpi_mt_ref_release, unimpi_mt_set_inited, unimpi_mpit_init_thread,
  unimpi_mpit_finalize,
}
use uni_mpi.Lifecycle.Keeps.{Keeps, IsBalanced-same, unload_if_unused_vt, counted}

release_backend-Inv :
    (code : ℤ) (t : ℕ) (s : Core) → IsBalanced (suc t) s → Inv t (release_backend code s)
unfolding release_backend clear_backend_identity unimpi_vtable_cleanup
release_backend-Inv code t s b =
    let emptied = record s { vt = unimpi_vtable_cleanup s.vt } in
    let released = record emptied { refcount = decrement s.refcount } in
    let balanced =
      release-IsBalanced t emptied (IsBalanced-same (suc t) s emptied refl refl refl refl b) in
    let is_empty : (f : String) → (unload_if_unused released).vt.unimpi f ≡ 0 =
      λ f. rw (unload_if_unused_vt released) refl in
    elim (Bool-cases (int_eq code (pos 0))) [
      | inl good ↦ rw good (record {
        balanced = IsBalanced-same t (unload_if_unused released) _ refl refl refl refl balanced;
        is_settled = refl;
        filled = λ _. inr (refl, is_empty);
      })
      | inr bad ↦ rw bad (record {
        balanced = IsBalanced-same t (unload_if_unused released) _ refl refl refl refl balanced;
        is_settled = refl;
        filled = λ _. inr (refl, is_empty);
      })
    ]

holds_one : (state : State) (t : ℕ) → refusal state ≡ ok → holders state t ≡ suc t
holds_one active t k = refl
holds_one never t k = ground arith
holds_one initializing t k = ground arith
holds_one init_failed t k = ground arith
holds_one finalizing t k = ground arith
holds_one finalized t k = ground arith
holds_one finalize_failed t k = ground arith

-- `unimpi_finalize` that returns keeps the invariant: the reference of MPI is given back.
pub unimpi_finalize-Keeps : (e : Env) (t : ℕ) (s : Core) → Inv t s → Keeps t (unimpi_finalize e s)
unfolding unimpi_finalize
unimpi_finalize-Keeps e t s i = elim (Bool-cases (int_eq (refusal s.state) ok)) [
  | inr refused ↦ rw (refused, Keeps) i
  | inl accepted ↦
      let held : IsBalanced (suc t) s =
        rw (holds_one s.state t ((int_eq_iff (refusal s.state) ok).0 accepted)) at i.balanced in
      let s1 = record s { state = finalizing } in
      let finalize = s.vt.unimpi "finalize" in
      elim (Bool-cases (finalize == 0)) [
        | inl absent ↦ rw (accepted, absent, Keeps) tt
        | inr present ↦
            rw (accepted, present, Keeps) (release_backend-Inv (e.call_finalize finalize) t s1 held)
      ]
]

holders-suc : (state : State) (t : ℕ) → holders state (suc t) ≡ suc (holders state t)
holders-suc active t = refl
holders-suc _ t = refl

-- In a state with the invariant `unimpi_mpit_init_thread` that returns keeps it, with one reference
-- of the tools interface more if the library could be loaded, also where MPI_T_init_thread itself
-- has failed, and with no more if not.
pub unimpi_mpit_init_thread-Keeps :
    (e : Env) (required : ℤ) (t : ℕ) (s : Core)
    → Inv t s
    → Keeps
        (if int_eq (unimpi_ensure_loaded e s).0 ok then suc t else t)
        (unimpi_mpit_init_thread e required s)
unfolding unimpi_mpit_init_thread unimpi_mt_ref_acquire unimpi_mt_set_inited
unimpi_mpit_init_thread-Keeps e required t s i =
    let (rc, s1) = unimpi_ensure_loaded e s in
    let n = holders s.state t in
    let ((same_state, same_count), cases) = ensure_loaded_cases e n s i.balanced in
    let kept : ℕ → Type 0 = λ n. Keeps n (unimpi_mpit_init_thread e required s) in
    elim cases [
      | inr (bad, none_held, is_unloaded, is_shut) ↦
          let unchanged : Inv t s1 = record {
            balanced =
                rw (same_state, none_held)
                  (same_count ∙ (rw none_held at i.balanced).0, is_unloaded, is_shut.0, is_shut.1);
            is_settled = rw same_state i.is_settled;
            filled = λ h. absurd (ground (arith, is_unloaded));
          } in
          let not_taken : (if int_eq rc ok then suc t else t) ≡ t = rw bad refl in
          subst kept (sym not_taken) (rw (bad, Keeps) unchanged)
      | inl (k, is_loaded, nonzero, only, content) ↦
          let s2 = record s1 { refcount = increment s1.refcount; mpit_inited = pos 1 } in
          let held : IsBalanced (suc n) s2 =
            counted n s s1 i.balanced same_count is_loaded nonzero only in
          let after : Inv (suc t) s2 = record {
            balanced = rw (same_state, holders-suc s.state t) held;
            is_settled = rw same_state i.is_settled;
            filled = λ l. elim content [
              | inl full ↦ inl full
              | inr (was_loaded, unchanged) ↦ rw unchanged (i.filled was_loaded)
            ];
          } in
          let taken : (if int_eq rc ok then suc t else t) ≡ suc t = rw k refl in
          elim (Bool-cases (s1.vt.unimpi_mt "t_init_thread" == 0)) [
            | inl absent ↦ subst kept (sym taken) (rw (k, absent, Keeps) tt)
            | inr present ↦ subst kept (sym taken) (rw (k, present, Keeps) after)
          ]
    ]

pub unload_if_unused_rest :
    (s : Core)
    → ((unload_if_unused s).state ≡ s.state)
      × ((unload_if_unused s).backend_loaded ≡ true → s.backend_loaded ≡ true)
unfolding unload_if_unused unload
unload_if_unused_rest s = (ground arith, ground arith)

release-Inv :
    (t : ℕ) (s : Core)
    → Inv (suc t) s
    → Inv t (unimpi_mt_ref_release (unimpi_mt_set_inited (pos 0) s))
unfolding unimpi_mt_ref_release unimpi_mt_set_inited
release-Inv t s i =
    let noted = record s { mpit_inited = pos 0 } in
    let released = record noted { refcount = decrement s.refcount } in
    let (same_state, was_loaded) = unload_if_unused_rest released in
    let same_vt = unload_if_unused_vt released in
    let n = holders s.state t in
    let held : IsBalanced (suc n) noted =
      IsBalanced-same (suc n) s noted refl refl refl refl
        (rw (holders-suc s.state t) at i.balanced) in
    record {
      balanced = rw same_state (release-IsBalanced n noted held);
      is_settled = rw same_state i.is_settled;
      filled = λ l. elim (i.filled (was_loaded l)) [
        | inl full ↦ inl (rw same_vt full)
        | inr (unused, z) ↦ inr (rw same_state unused, rw same_vt z)
      ];
    }

-- In a state with the invariant in which the tools interface holds a reference,
-- `unimpi_mpit_finalize` that returns keeps the invariant with one such reference less.
pub unimpi_mpit_finalize-Keeps :
    (e : Env) (t : ℕ) (s : Core) → Inv (suc t) s → Keeps t (unimpi_mpit_finalize e s)
unfolding unimpi_mpit_finalize
unimpi_mpit_finalize-Keeps e t s i =
    let t_finalize = s.vt.unimpi_mt "t_finalize" in
    elim (Bool-cases (t_finalize == 0)) [
      | inl absent ↦ rw (absent, Keeps) tt
      | inr present ↦ rw (present, Keeps) (release-Inv t s i)
    ]
