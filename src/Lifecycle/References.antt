-- ===== src/Lifecycle/References.antt =====
-- Taking and giving back a reference to the library.
use uni_mpi.Base.{ℕ, zero, suc, true, false, [], ◌∷◌, ◌≡◌, ◌≢◌, refl, arith, ◌⊎◌, inl, inr}
use uni_mpi.Base.Int.{int_eq, decrement}
use uni_mpi.Codes.{ok}
use uni_mpi.Platform.{Env}
use uni_mpi.Lifecycle.State.{Core, unload_if_unused}
use uni_mpi.Lifecycle.Loading.{unimpi_ensure_loaded}
use uni_mpi.Lifecycle.Invariant.{
  IsBalanced, IsFilled, IsShut, SameCount, open_handles, erase_only, ensure_loaded_new,
}

-- Giving back the last reference closes the library, any other leaves it open.
pub release-IsBalanced :
    (n : ℕ) (s : Core)
    → IsBalanced (suc n) s
    → IsBalanced n (unload_if_unused (record s { refcount = decrement s.refcount }))
unfolding unload_if_unused
release-IsBalanced zero s b = ground (arith, erase_only s.handle)
release-IsBalanced (suc n) s b = ground arith

pub ensure_loaded_again :
    (e : Env) (s : Core) → s.backend_loaded ≡ true → unimpi_ensure_loaded e s ≡ (ok, s)
unfolding unimpi_ensure_loaded
ensure_loaded_again e s l = simp l

-- Loading on demand, whoever holds references already.
pub ensure_loaded_cases :
    (e : Env) (n : ℕ) (s : Core)
    → IsBalanced n s
    → let (code, s') = unimpi_ensure_loaded e s in
      SameCount s s'
      × (((code ≡ ok)
            × (s'.backend_loaded ≡ true)
            × (s'.handle ≢ 0)
            × (open_handles s'.calls ≡ s'.handle ∷ [])
            × (IsFilled s' ⊎ ((s.backend_loaded ≡ true) × (s' ≡ s))))
          ⊎ ((int_eq code ok ≡ false) × (n ≡ 0) × (s'.backend_loaded ≡ false) × IsShut s'))
ensure_loaded_cases e zero s b =
    let (same, cases) = ensure_loaded_new e s b.1 b.3 in
    (
      same,
      elim cases [
        | inl (k, l, is_open) ↦ inl (k, l, is_open.0, is_open.1, inl is_open.2)
        | inr (bad, l, is_shut) ↦ inr (bad, refl, l, is_shut)
      ],
    )
ensure_loaded_cases e (suc n) s b =
    let again = ensure_loaded_again e s b.1 in
    rw again ((refl, refl), inl (refl, b.1, b.2, b.3, inr (b.1, refl)))
