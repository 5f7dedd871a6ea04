-- ===== src/Lifecycle/ShutDown.antt =====
-- A program can always give back what it holds.
use uni_mpi.Base.{
  ℕ, zero, suc, ◌<◌, Bool, true, false, if◌then◌else◌, Option, some, none, ◌==◌, ◌≡◌, ◌≢◌, refl,
  arith, inl, inr, Bool-cases,
}
use uni_mpi.Base.Int.{pos, int_eq, int_eq_iff, decrement}
use uni_mpi.Codes.{ok}
use uni_mpi.Platform.{Env}
use uni_mpi.Lifecycle.State.{
  State, never, initializing, active, init_failed, finalizing, finalized, finalize_failed, Core,
  Outcome, fault, done, unload_if_unused,
}
use uni_mpi.Lifecycle.Init.{unimpi_finalize, refusal}
use uni_mpi.Lifecycle.Mpit.{unimpi_mpit_finalize, unimpi_mt_ref_release, unimpi_mt_set_inited}
use uni_mpi.Lifecycle.Invariant.{Inv, IsBalanced, holders}
use uni_mpi.Lifecycle.Keeps.{unload_if_unused_vt}
use uni_mpi.Lifecycle.Ends.{
  unimpi_finalize-Keeps, unimpi_mpit_finalize-Keeps, unload_if_unused_rest,
}
use uni_mpi.Lifecycle.Faults.{only_active}
use uni_mpi.Lifecycle.Final.{finalize_result}

-- The state after a call, `none` where it went through NULL.
abbrev pub after : Outcome → Option Core
after fault = none
after (done code provided s) = some s

abbrev pub end_tools : Env → ℕ → Core → Option Core
end_tools e zero s = some s
end_tools e (suc t) s = elim (after (unimpi_mpit_finalize e s)) [
  | none ↦ none
  | some s' ↦ end_tools e t s'
]

-- `unimpi_finalize`, and then as many calls of `unimpi_mpit_finalize`.
abbrev pub shut_down : Env → ℕ → Core → Option Core
shut_down e t s = elim (after (unimpi_finalize e s)) [ none ↦ none | some s' ↦ end_tools e t s' ]

-- No reference is left, no library is open, and MPI is not active.
abbrev pub IsDown : Core → Type 0
IsDown s = IsBalanced 0 s × (s.state ≢ active)

mpit_finalize_step :
    (e : Env) (t : ℕ) (s : Core)
    → Inv (suc t) s
    → s.vt.unimpi_mt "t_finalize" ≢ 0
    → (s' : Core) × (after (unimpi_mpit_finalize e s) ≡ some s')
      × Inv t s'
      × (s'.state ≡ s.state)
      × (s'.vt ≡ s.vt)
unfolding unimpi_mpit_finalize unimpi_mt_ref_release unimpi_mt_set_inited
mpit_finalize_step e t s i bound =
    let present : (s.vt.unimpi_mt "t_finalize" == 0) ≡ false = ground arith in
    let released = record s { mpit_inited = pos 0; refcount = decrement s.refcount } in
    (
      unload_if_unused released,
      rw present refl,
      rw present at (unimpi_mpit_finalize-Keeps e t s i),
      (unload_if_unused_rest released).0,
      unload_if_unused_vt released,
    )

not_held : (state : State) (t : ℕ) → state ≢ active → holders state t ≡ t
not_held active t idle = absurd (idle refl)
not_held never t idle = refl
not_held initializing t idle = refl
not_held init_failed t idle = refl
not_held finalizing t idle = refl
not_held finalized t idle = refl
not_held finalize_failed t idle = refl

end_tools-IsDown :
    (e : Env) (t : ℕ) (s : Core)
    → Inv t s
    → s.state ≢ active
    → (0 < t → s.vt.unimpi_mt "t_finalize" ≢ 0)
    → (s' : Core) × (end_tools e t s ≡ some s') × IsDown s'
end_tools-IsDown e zero s i idle bound =
    (s, refl, (rw (not_held s.state 0 idle) at i.balanced, idle))
end_tools-IsDown e (suc t) s i idle bound =
    let (s1, returned, i1, same, same_vt) = mpit_finalize_step e t s i (bound (omega arith)) in
    let (s2, rest, down) =
      end_tools-IsDown e t s1 i1 (rw same idle) (λ h. rw same_vt (bound (omega arith))) in
    (s2, rw (returned, end_tools) rest, down)

ended : (b : Bool) → (if b then finalized else finalize_failed) ≢ active
ended true = λ h. ground (arith, h)
ended false = λ h. ground (arith, h)

finalize_step :
    (e : Env) (t : ℕ) (s : Core)
    → Inv t s
    → (s' : Core) × (after (unimpi_finalize e s) ≡ some s')
      × Inv t s'
      × (s'.state ≢ active)
      × (s'.vt.unimpi_mt ≡ s.vt.unimpi_mt)
unfolding unimpi_finalize
finalize_step e t s i = elim (Bool-cases (int_eq (refusal s.state) ok)) [
  | inr refused ↦ (
    s,
    rw (refused, after) refl,
    i,
    λ is_active. ground (arith, is_active, (int_eq_iff (refusal s.state) ok).1),
    refl,
  )
  | inl accepted ↦
      let is_active = only_active s.state ((int_eq_iff (refusal s.state) ok).0 accepted) in
      let (s1, returned, now, _, same, _) = finalize_result e t s i is_active in
      (s1, rw returned refl, rw returned at (unimpi_finalize-Keeps e t s i), rw now (ended _), same)
]

-- In a state with the invariant in which the table has MPI_T_finalize if the tools interface holds
-- a reference, whatever the library's functions return: `unimpi_finalize` followed by one call of
-- `unimpi_mpit_finalize` for each reference of the tools interface makes no call through NULL, and
-- in the state that is reached the count is 0, no library is open and MPI is not active.
pub shut_down-IsDown :
    (e : Env) (t : ℕ) (s : Core)
    → Inv t s
    → (0 < t → s.vt.unimpi_mt "t_finalize" ≢ 0)
    → (s' : Core) × (shut_down e t s ≡ some s') × IsDown s'
shut_down-IsDown e t s i bound =
    let (s1, returned, i1, idle, same) = finalize_step e t s i in
    let (s2, rest, down) = end_tools-IsDown e t s1 i1 idle (λ h. rw same (bound h)) in
    (s2, rw (returned, shut_down) rest, down)
