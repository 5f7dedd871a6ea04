-- ===== src/Lifecycle/Final.antt =====
-- What `unimpi_finalize` of src/core.c leaves.
use uni_mpi.Base.{ℕ, zero, suc, false, none, [], ◌∷◌, ◌==◌, if◌then◌else◌, ◌≡◌, refl, arith}
use uni_mpi.Base.Int.{ℤ, pos, int_eq, int_eq_iff, decrement}
use uni_mpi.Codes.{ok}
use uni_mpi.Platform.{Env}
use uni_mpi.Init.{unimpi_vtable_cleanup}
use uni_mpi.Init.Core.{finalize}
use uni_mpi.Lifecycle.State.{
  active, finalizing, finalized, finalize_failed, Core, done, unload, unload_if_unused,
  clear_backend_identity,
}
use uni_mpi.Lifecycle.Init.{unimpi_finalize, release_backend}
use uni_mpi.Lifecycle.Invariant.{Inv, IsBalanced, IsEmpty, holders, open_handles, erase_only}
use uni_mpi.Lifecycle.Keeps.{unload_if_unused_vt}
use uni_mpi.Lifecycle.Faults.{active-IsFilled}

-- Whether the library stays open: its handle, and what is open.
abbrev pub Left : ℕ → ℕ → Core → Type 0
Left zero h s' = (s'.handle ≡ 0) × (open_handles s'.calls ≡ [])
Left (suc t) h s' = (s'.handle ≡ h) × (open_handles s'.calls ≡ h ∷ [])

unload_if_unused-Left :
    (t : ℕ) (s : Core)
    → IsBalanced (suc t) s
    → Left t s.handle (unload_if_unused (record s { refcount = decrement s.refcount }))
unfolding unload_if_unused unload
unload_if_unused-Left zero s b = ground (arith, erase_only s.handle)
unload_if_unused-Left (suc t) s b = ground arith

release_backend-Left :
    (code : ℤ) (t : ℕ) (s : Core) → IsBalanced (suc t) s → Left t s.handle (release_backend code s)
unfolding release_backend clear_backend_identity
release_backend-Left code zero s b =
    unload_if_unused-Left 0 (record s { vt = unimpi_vtable_cleanup s.vt }) b
release_backend-Left code (suc t) s b =
    unload_if_unused-Left (suc t) (record s { vt = unimpi_vtable_cleanup s.vt }) b

release_backend_vt :
    (code : ℤ) (s : Core) → (release_backend code s).vt ≡ unimpi_vtable_cleanup s.vt
unfolding release_backend clear_backend_identity
release_backend_vt code s =
    unload_if_unused_vt
      (record s { vt = unimpi_vtable_cleanup s.vt; refcount = decrement s.refcount })

pub release_backend_state :
    (code : ℤ) (s : Core)
    → (release_backend code s).state ≡ (if int_eq code (pos 0) then finalized else finalize_failed)
unfolding release_backend
release_backend_state code s = refl

returned_code : (code : ℤ) → (if int_eq code (pos 0) then ok else code) ≡ code
returned_code code = ground (arith, int_eq_iff code (pos 0))

-- In a state with the invariant `unimpi_finalize` of an active MPI returns what the library's MPI_Finalize returned. The state is
-- "finalized" if that was 0 and "finalize failed" if not, every field of `unimpi` is NULL, and the
-- fields of `unimpi_mt` are as before. The library is closed if the tools interface holds no
-- reference, and stays open under the same handle if it does.
pub finalize_result :
    (e : Env) (t : ℕ) (s : Core)
    → Inv t s
    → s.state ≡ active
    → let code = e.call_finalize (s.vt.unimpi "finalize") in
      (s' : Core) × (unimpi_finalize e s ≡ done code none s')
      × (s'.state ≡ (if int_eq code (pos 0) then finalized else finalize_failed))
      × IsEmpty s'
      × (s'.vt.unimpi_mt ≡ s.vt.unimpi_mt)
      × Left t s.handle s'
unfolding unimpi_finalize unimpi_vtable_cleanup
finalize_result e t s i is_active =
    let code = e.call_finalize (s.vt.unimpi "finalize") in
    let s1 = record s { state = finalizing } in
    let full = active-IsFilled s t i (rw is_active refl) in
    let held : holders s.state t ≡ suc t = rw is_active refl in
    let present : (s.vt.unimpi "finalize" == 0) ≡ false =
      let p = full "finalize" finalize in ground arith in
    let same = release_backend_vt code s1 in
    let returned : (if int_eq code (pos 0) then ok else code) ≡ code = returned_code code in
    (
      release_backend code s1,
      rw (is_active, present, returned) refl,
      release_backend_state code s1,
      rw same (λ f. refl),
      rw same refl,
      release_backend-Left code t s1 (rw held at i.balanced),
    )
