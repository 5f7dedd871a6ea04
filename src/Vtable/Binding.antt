-- ===== src/Vtable/Binding.antt =====
-- What running a program of statements leaves in the fields of the two function tables.
use uni_mpi.Base.{
  ℕ, Bool, true, false, String, List, [], ◌∷◌, ◌++◌, str_eq, eq_iff, if◌then◌else◌, ◌&&◌, ◌||◌, not,
  all, any, ◌≡◌, refl, sym, ap, ◌∙◌, arith, &&_true, Bool-cases, inl, inr,
}
use mathlib.Core.List.{Memᴰ}
use uni_mpi.Base.Text.{Text, codes, text_eq, text_eq→eq, to_upper}
use uni_mpi.Platform.{Env, Target}
use uni_mpi.Vtable.{
  Vtable, Instr, Gate, Program, bind, bind_mt, native, wrap, wrap_if, fallback, assign, resolve,
  ignore, base, mpi_3_0, mpi_3_1, enabled, update, exec, run,
}

abbrev capitalize : Text → Text
capitalize [] = []
capitalize (c ∷ s) = to_upper c ∷ s

-- The standard name of a field: `unimpi.comm_size` is MPI_Comm_size, `unimpi_mt.t_cvar_read` is
-- MPI_T_cvar_read.
abbrev pub std_symbol : String → Text
std_symbol field = codes "MPI_" ++ capitalize (codes field)

-- A statement that binds a field takes the symbol of that name, and only a field of `local` is
-- ever given a function of UniMPI.
unfoldable pub conforms : (String → Bool) → Instr → Bool
conforms local (bind field symbol) = text_eq (codes symbol) (std_symbol field)
conforms local (bind_mt field symbol) = text_eq (codes symbol) (std_symbol field)
conforms local (wrap field function) = local field
conforms local (wrap_if name field function) = local field
conforms local (fallback field function) = local field
conforms local (native name symbol) = true
conforms local (assign name value) = true
conforms local (resolve name symbol) = true
conforms local (ignore symbol) = true

abbrev pub writes : String → Instr → Bool
writes f (bind field symbol) = str_eq field f
writes f (wrap field function) = str_eq field f
writes f (wrap_if name field function) = str_eq field f
writes f (fallback field function) = str_eq field f
writes f _ = false

abbrev pub writes_mt : String → Instr → Bool
writes_mt f (bind_mt field symbol) = str_eq field f
writes_mt f _ = false

-- Some statement that the target version keeps writes the field.
abbrev pub mentions : (String → Instr → Bool) → Target → String → Program → Bool
mentions w t f [] = false
mentions w t f ((gate, i) ∷ p) = (enabled t gate && w f i) || mentions w t f p

abbrev pub all_conform : (String → Bool) → Program → Bool
all_conform local p = all (λ s. conforms local s.1) p

-- The value that a statement for the symbol `y` leaves at `f`.
update_std :
    (e : Env) (h : ℕ) (g : String → ℕ) (field symbol f : String)
    → text_eq (codes symbol) (std_symbol field) ≡ true
    → update g field (e.dlsym h (codes symbol)) f
      ≡ (if str_eq field f then e.dlsym h (std_symbol f) else g f)
update_std e h g field symbol f c = elim (Bool-cases (str_eq field f)) [
  | inl same ↦ rw same (ap (e.dlsym h) (text_eq→eq _ _ c ∙ ap std_symbol ((eq_iff field f).0 same)))
  | inr other ↦ rw other refl
]

module _ (e : Env) (h : ℕ) (local : String → Bool) (f : String) where
  local_ne : (field : String) → local f ≡ false → local field ≡ true → str_eq field f ≡ false
  local_ne field l m = elim (Bool-cases (str_eq field f)) [
    | inl same ↦ ground (arith, ap local ((eq_iff field f).0 same))
    | inr other ↦ other
  ]

  exec_unimpi :
      (i : Instr) (v : Vtable)
      → local f ≡ false
      → conforms local i ≡ true
      → (exec e h i v).unimpi f ≡ (if writes f i then e.dlsym h (std_symbol f) else v.unimpi f)
  unfolding exec conforms
  exec_unimpi (bind field symbol) v l c = update_std e h v.unimpi field symbol f c
  exec_unimpi (wrap field function) v l c = rw (local_ne field l c)
  exec_unimpi (wrap_if name field function) v l c = ground (arith, local_ne field l c)
  exec_unimpi (fallback field function) v l c = ground (arith, local_ne field l c)
  exec_unimpi (bind_mt field symbol) v l c = refl
  exec_unimpi _ v l c = refl

  exec_unimpi_mt :
      (i : Instr) (v : Vtable)
      → conforms local i ≡ true
      → (exec e h i v).unimpi_mt f
        ≡ (if writes_mt f i then e.dlsym h (std_symbol f) else v.unimpi_mt f)
  unfolding exec conforms
  exec_unimpi_mt (bind_mt field symbol) v c = update_std e h v.unimpi_mt field symbol f c
  exec_unimpi_mt (wrap_if name field function) v c = ground arith
  exec_unimpi_mt (fallback field function) v c = ground arith
  exec_unimpi_mt _ v c = refl

  -- Field by field, a conforming program binds what it mentions and leaves the rest.
  pub run_unimpi :
      (p : Program) (v : Vtable)
      → local f ≡ false
      → all_conform local p ≡ true
      → (run e h p v).unimpi f
        ≡ (if mentions writes e.target f p then e.dlsym h (std_symbol f) else v.unimpi f)
  unfolding run
  run_unimpi [] v l c = refl
  run_unimpi ((gate, i) ∷ p) v l c =
      let (c1, c2) = &&_true (conforms local i) (all_conform local p) c in
      ground (arith, exec_unimpi i v l c1, run_unimpi p v l c2, run_unimpi p (exec e h i v) l c2)

  pub run_unimpi_mt :
      (p : Program) (v : Vtable)
      → all_conform local p ≡ true
      → (run e h p v).unimpi_mt f
        ≡ (if mentions writes_mt e.target f p then e.dlsym h (std_symbol f) else v.unimpi_mt f)
  unfolding run
  run_unimpi_mt [] v c = refl
  run_unimpi_mt ((gate, i) ∷ p) v c =
      let (c1, c2) = &&_true (conforms local i) (all_conform local p) c in
      ground (arith, exec_unimpi_mt i v c1, run_unimpi_mt p v c2, run_unimpi_mt p (exec e h i v) c2)

-- A program covers a field of the table's type: it writes it, and only under the field's gate.
abbrev pub gate_eq : Gate → Gate → Bool
gate_eq base base = true
gate_eq mpi_3_0 mpi_3_0 = true
gate_eq mpi_3_1 mpi_3_1 = true
gate_eq _ _ = false

abbrev only_under : (String → Instr → Bool) → Gate → String → Program → Bool
only_under w g f p = all (λ s. not (w f s.1) || gate_eq s.0 g) p

abbrev pub covers : (String → Instr → Bool) → Program → Gate × String → Bool
covers w p (g, f) = any (λ s. w f s.1) p && only_under w g f p

pub gate_eq→eq : (g g' : Gate) → gate_eq g g' ≡ true → g ≡ g'
gate_eq→eq base base h = refl
gate_eq→eq mpi_3_0 mpi_3_0 h = refl
gate_eq→eq mpi_3_1 mpi_3_1 h = refl
gate_eq→eq _ _ h = ground arith

mentions-only_under :
    (w : String → Instr → Bool) (t : Target) (g : Gate) (f : String) (p : Program)
    → only_under w g f p ≡ true
    → mentions w t f p ≡ (any (λ s. w f s.1) p && enabled t g)
mentions-only_under w t g f [] o = refl
mentions-only_under w t g f ((gate, i) ∷ p) o =
    let (o1, o2) = &&_true (not (w f i) || gate_eq gate g) (only_under w g f p) o in
    elim (Bool-cases (w f i)) [
      | inl writes_it ↦ ground (
        arith,
        gate_eq→eq gate g (ground arith),
        ap (enabled t) (gate_eq→eq gate g (ground arith)),
        mentions-only_under w t g f p o2,
      )
      | inr leaves_it ↦ ground (arith, mentions-only_under w t g f p o2)
    ]

-- A covered field is mentioned exactly where its gate is open.
pub mentions-covers :
    (w : String → Instr → Bool) (t : Target) (g : Gate) (f : String) (p : Program)
    → covers w p (g, f) ≡ true
    → mentions w t f p ≡ enabled t g
mentions-covers w t g f p c =
    let (written, only) = &&_true (any (λ s. w f s.1) p) (only_under w g f p) c in
    rw (mentions-only_under w t g f p only, written)

-- A declared field, found by evaluation.
abbrev pub declares : Gate → String → List (Gate × String) → Bool
declares g f fields = any (λ x. gate_eq x.0 g && str_eq x.1 f) fields

pub declares→Memᴰ :
    (g : Gate) (f : String) (fields : List (Gate × String))
    → declares g f fields ≡ true
    → Memᴰ (g, f) fields
declares→Memᴰ g f [] d = cc
declares→Memᴰ g f ((g', f') ∷ fields) d = elim (Bool-cases (gate_eq g' g && str_eq f' f)) [
  | inl here ↦
      let (same_gate, same_name) = &&_true (gate_eq g' g) (str_eq f' f) here in
      Memᴰ.head (λ i. (sym (gate_eq→eq g' g same_gate) i, sym ((eq_iff f' f).0 same_name) i))
  | inr later ↦ Memᴰ.tail (declares→Memᴰ g f fields (ground arith))
]

mentions-append :
    (w : String → Instr → Bool) (t : Target) (f : String) (p q : Program)
    → mentions w t f (p ++ q) ≡ (mentions w t f p || mentions w t f q)
mentions-append w t f [] q = refl
mentions-append w t f ((gate, i) ∷ p) q = ground (arith, mentions-append w t f p q)

pub all-Memᴰ {ℓ} :
    {A : Type ℓ} (test : A → Bool) (xs : List A) {x : A}
    → all test xs ≡ true
    → Memᴰ x xs
    → test x ≡ true
all-Memᴰ test [] h m = elim m [ ]
all-Memᴰ test (y ∷ xs) h (Memᴰ.head p) = rw p (&&_true (test y) (all test xs) h).0
all-Memᴰ test (y ∷ xs) h (Memᴰ.tail m) = all-Memᴰ test xs (&&_true (test y) (all test xs) h).1 m

pub any-Memᴰ {ℓ} :
    {A : Type ℓ} (p : A → Bool) (xs : List A) → any p xs ≡ true → (x : A) × Memᴰ x xs × (p x ≡ true)
any-Memᴰ p [] h = cc
any-Memᴰ p (x ∷ xs) h = elim (Bool-cases (p x)) [
  | inl here ↦ (x, Memᴰ.head refl, here)
  | inr later ↦ let (y, m, good) = any-Memᴰ p xs (ground arith) in (y, Memᴰ.tail m, good)
]

-- A program in two parts, between which only variables are set.
module _ (local : String → Bool) (p q : Program) (fields mt_fields : List (Gate × String)) where
  abbrev pub IsComplete : Type 0
  IsComplete =
      (all_conform local p ≡ true)
      × (all_conform local q ≡ true)
      × (all (covers writes (p ++ q)) fields ≡ true)
      × (all (covers writes_mt (p ++ q)) mt_fields ≡ true)

  module _ (e : Env) (h : ℕ) (v v' : Vtable) (g : Gate) (f : String) where
    pub unimpi-two_parts :
        IsComplete
        → v'.unimpi f ≡ (run e h p v).unimpi f
        → Memᴰ (g, f) fields
        → local f ≡ false
        → (run e h q v').unimpi f
          ≡ (if enabled e.target g then e.dlsym h (std_symbol f) else v.unimpi f)
    unimpi-two_parts c same m l =
        let covered = all-Memᴰ (covers writes (p ++ q)) fields c.2 m in
        ground (
          arith,
          run_unimpi e h local f q v' l c.1,
          run_unimpi e h local f p v l c.0,
          mentions-append writes e.target f p q,
          mentions-covers writes e.target g f (p ++ q) covered,
        )

    pub unimpi_mt-two_parts :
        IsComplete
        → v'.unimpi_mt f ≡ (run e h p v).unimpi_mt f
        → Memᴰ (g, f) mt_fields
        → (run e h q v').unimpi_mt f
          ≡ (if enabled e.target g then e.dlsym h (std_symbol f) else v.unimpi_mt f)
    unimpi_mt-two_parts c same m =
        let covered = all-Memᴰ (covers writes_mt (p ++ q)) mt_fields c.3 m in
        ground (
          arith,
          run_unimpi_mt e h local f q v' c.1,
          run_unimpi_mt e h local f p v c.0,
          mentions-append writes_mt e.target f p q,
          mentions-covers writes_mt e.target g f (p ++ q) covered,
        )
