-- ===== src/Lifecycle/Invariant.antt =====
-- What holds of the library between two calls. `t` counts the references that the tools interface
-- holds: the calls of `unimpi_mpit_init_thread` that have not been finalized.
use uni_mpi.Base.{
  ℕ, zero, suc, Bool, true, false, Option, some, List, [], ◌∷◌, ◌==◌, if◌then◌else◌, String, ◌≡◌,
  ◌≢◌, refl, arith, ◌⊎◌, inl, inr, Bool-cases, ◌∙◌,
}
use uni_mpi.Base.Text.{Text}
use uni_mpi.Base.Int.{pos, int_eq, int_eq_iff}
use uni_mpi.Codes.{ok}
use uni_mpi.Platform.{Env}
use uni_mpi.Loader.{unimpi_loader_load}
use uni_mpi.Loader.Choice.{load_nonzero, load_error, detect_total}
use uni_mpi.Init.{unimpi_vtable_init}
use uni_mpi.Init.Core.{Required, init_sound}
use uni_mpi.Lifecycle.State.{
  State, never, initializing, active, finalizing, Core, Call, opened, closed, start,
}
use uni_mpi.Lifecycle.Loading.{load, fill, load_backend, unimpi_ensure_loaded}

abbrev pub erase : ℕ → List ℕ → List ℕ
erase h [] = []
erase h (k ∷ ks) = let rest = k ∷ erase h ks in if k == h then ks else rest

-- The libraries that are open after the calls, counted as often as they were opened.
abbrev pub open_handles : List Call → List ℕ
open_handles [] = []
open_handles (opened h ∷ c) = h ∷ open_handles c
open_handles (closed h ∷ c) = erase h (open_handles c)

-- All references: the MPI interface holds one while it is active.
abbrev pub holders : State → ℕ → ℕ
holders active t = suc t
holders _ t = t

abbrev pub settled : State → Bool
settled initializing = false
settled finalizing = false
settled _ = true

-- The states in which the main table of a loaded library is never empty.
abbrev pub uses_table : State → Bool
uses_table never = true
uses_table active = true
uses_table _ = false

abbrev pub IsFilled : Core → Type 0
IsFilled s = (f : String) → Required f → s.vt.unimpi f ≢ 0

abbrev pub IsEmpty : Core → Type 0
IsEmpty s = (f : String) → s.vt.unimpi f ≡ 0

-- With `n` references the count is right, and one library is open if there are any, none if not.
abbrev pub IsBalanced : ℕ → Core → Type 0
IsBalanced zero s =
    (s.refcount ≡ pos 0) × (s.backend_loaded ≡ false) × (s.handle ≡ 0) × (open_handles s.calls ≡ [])
IsBalanced (suc n) s =
    (s.refcount ≡ pos (suc n))
    × (s.backend_loaded ≡ true)
    × (s.handle ≢ 0)
    × (open_handles s.calls ≡ s.handle ∷ [])

pub record Inv (t : ℕ) (s : Core) : Type 0 where
  pub balanced : IsBalanced (holders s.state t) s
  pub is_settled : settled s.state ≡ true
  pub filled : s.backend_loaded ≡ true → IsFilled s ⊎ ((uses_table s.state ≡ false) × IsEmpty s)

pub start-Inv : Inv 0 start
unfolding start
start-Inv = record { balanced = (refl, refl, refl, refl); is_settled = refl; filled = λ h. cc }

pub load_handle :
    (e : Env) (path : Option Text)
    → (unimpi_loader_load e path true).0 ≡ ok
    → (unimpi_loader_load e path true).1 ≢ 0
load_handle e path k = load_nonzero e path true k

-- `unimpi_loader_load` into `g_handle`, while no library is open.
pub load_cases :
    (e : Env) (path : Option Text) (s : Core)
    → open_handles s.calls ≡ []
    → let (code, s') = load e path s in
      (s'.vt ≡ s.vt)
      × (s'.state ≡ s.state)
      × (s'.refcount ≡ s.refcount)
      × (s'.backend_loaded ≡ s.backend_loaded)
      × (((code ≡ ok) × (s'.handle ≢ 0) × (open_handles s'.calls ≡ s'.handle ∷ []))
          ⊎ ((int_eq code ok ≡ false) × (s'.handle ≡ 0) × (open_handles s'.calls ≡ [])))
unfolding load
load_cases e path s b =
    let (code, h) = unimpi_loader_load e path true in
    (
      refl,
      refl,
      refl,
      refl,
      elim (Bool-cases (int_eq code ok)) [
        | inl good ↦
            let k = (int_eq_iff code ok).0 good in
            let nonzero = load_handle e path k in inl (k, nonzero, ground arith)
        | inr bad ↦
            let z = load_error e path true (ground (arith, int_eq_iff code ok)) in
            inr (bad, z, ground arith)
      ],
    )

-- `unimpi_vtable_init` on `g_handle`.
pub fill_cases :
    (e : Env) (s : Core)
    → let (code, s') = fill e s in
      (s'.handle ≡ s.handle)
      × (s'.state ≡ s.state)
      × (s'.refcount ≡ s.refcount)
      × (s'.calls ≡ s.calls)
      × (s'.backend_loaded ≡ s.backend_loaded)
      × (((code ≡ ok) × IsFilled s') ⊎ (int_eq code ok ≡ false))
unfolding fill
fill_cases e s =
    let (code, vt) = unimpi_vtable_init e s.handle s.identity.backend_name s.vt in
    (
      refl,
      refl,
      refl,
      refl,
      refl,
      elim (Bool-cases (int_eq code ok)) [
        | inl good ↦
            let k = (int_eq_iff code ok).0 good in
            inl (k, λ f r. (init_sound e s.handle s.identity.backend_name s.vt f k r).2)
        | inr bad ↦ inr bad
      ],
    )

-- A library is open and its table is full, or none is open.
abbrev pub IsOpen : Core → Type 0
IsOpen s = (s.handle ≢ 0) × (open_handles s.calls ≡ s.handle ∷ []) × IsFilled s

abbrev pub IsShut : Core → Type 0
IsShut s = (s.handle ≡ 0) × (open_handles s.calls ≡ [])

abbrev pub SameCount : Core → Core → Type 0
SameCount s s' = (s'.state ≡ s.state) × (s'.refcount ≡ s.refcount)

pub erase_only : (h : ℕ) → erase h (h ∷ []) ≡ []
erase_only h = ground arith

pub load_backend_cases :
    (e : Env) (path : Option Text) (s : Core)
    → open_handles s.calls ≡ []
    → let (code, s') = load_backend e path s in
      SameCount s s'
      × (s'.backend_loaded ≡ s.backend_loaded)
      × (((code ≡ ok) × IsOpen s') ⊎ ((int_eq code ok ≡ false) × IsShut s'))
unfolding load_backend
load_backend_cases e path s b =
    let (code, s1) = load e path s in
    let (vt1, st1, rc1, bl1, c1) = load_cases e path s b in
    let (h2, st2, rc2, cs2, bl2, c2) = fill_cases e s1 in
    elim c1 [
      | inr (bad, z, o) ↦ rw (bad, load_backend) ((st1, rc1), bl1, inr (bad, (z, o)))
      | inl (good, nz, o) ↦ elim c2 [
        | inl (k, full) ↦
            rw (good, k, load_backend)
              ((st2 ∙ st1, rc2 ∙ rc1), bl2 ∙ bl1, inl (refl, (rw h2 nz, ground arith, full)))
        | inr bad2 ↦
            rw (good, bad2, load_backend)
              (
                (st2 ∙ st1, rc2 ∙ rc1),
                bl2 ∙ bl1,
                inr (bad2, (refl, ground (arith, erase_only s1.handle))),
              )
      ]
    ]

-- Where no library is loaded, `unimpi_ensure_loaded` either loads one and fills the table, or
-- fails and leaves none open.
pub ensure_loaded_new :
    (e : Env) (s : Core)
    → s.backend_loaded ≡ false
    → open_handles s.calls ≡ []
    → let (code, s') = unimpi_ensure_loaded e s in
      SameCount s s'
      × (((code ≡ ok) × (s'.backend_loaded ≡ true) × IsOpen s')
          ⊎ ((int_eq code ok ≡ false) × (s'.backend_loaded ≡ false) × IsShut s'))
unfolding unimpi_ensure_loaded
ensure_loaded_new e s l b =
    let (path, found, _) = detect_total e in
    let (same, flag, cases) = load_backend_cases e (some path) s b in
    elim cases [
      | inl (k, is_open) ↦
          simp (found, l, k, unimpi_ensure_loaded) (same, inl (refl, refl, is_open))
      | inr (bad, is_shut) ↦
          simp (found, l, bad, unimpi_ensure_loaded) (same, inr (refl, flag ∙ l, is_shut))
    ]
