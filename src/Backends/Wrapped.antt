-- ===== src/Backends/Wrapped.antt =====
-- The fields that take a wrapper, for the three libraries with handles of 4 bytes.
use mathlib.Core.List.{Memᴰ}
use mathlib.Core.Path.{subst}
use Prim.Native.String.{◌++◌ as ◌<>◌}
use uni_mpi.Base.{
  ℕ, Bool, true, false, not, String, [], ◌∷◌, str_eq, eq_iff, all, any, ◌==◌, ◌&&◌, ◌||◌, &&_true,
  if◌then◌else◌, ◌≡◌, ◌≢◌, refl, arith, ◌∙◌, ap, Bool-cases, inl, inr,
}
use uni_mpi.Base.Int.{ℤ}
use uni_mpi.Base.Text.{codes, text_eq, text_eq→eq}
use uni_mpi.Platform.{Env}
use uni_mpi.Vtable.{
  Vtable, Instr, bind, bind_mt, native, wrap, wrap_if, fallback, assign, resolve, ignore, Gate,
  Program, exec, run, enabled,
}
use uni_mpi.Vtable.Binding.{std_symbol, all-Memᴰ, gate_eq, gate_eq→eq}
use uni_mpi.Fields.{main_fields}
use uni_mpi.Backends.Mpich.{mpich_head, mpich_tail, unimpi_vtable_init_mpich}
use uni_mpi.Backends.Intelmpi.{intelmpi_head, intelmpi_tail, unimpi_vtable_init_intelmpi}
use uni_mpi.Backends.Msmpi.{msmpi_program, unimpi_vtable_init_msmpi}
use uni_mpi.Backends.Parity.{wrapper_fields}

-- The statement gives the field or the pointer a value.
abbrev touches : String → String → Instr → Bool
touches f n (bind f' symbol) = str_eq f' f
touches f n (native n' symbol) = str_eq n' n
touches f n (wrap f' function) = str_eq f' f
touches f n (wrap_if n' f' function) = str_eq f' f
touches f n (fallback f' function) = str_eq f' f
touches f n _ = false

abbrev spares : Program → String → String → Bool
spares p f n = all (λ x. not (touches f n x.1)) p

-- The field holds the function, and the pointer the address `a`.
abbrev Holds : String → String → ℕ → ℕ → Vtable → Type 0
Holds f n function a v = (v.unimpi f ≡ function) × (v.natives n ≡ a)

exec_spares :
    (e : Env) (h : ℕ) (i : Instr) (v : Vtable) (f n : String)
    → touches f n i ≡ false
    → Holds f n (v.unimpi f) (v.natives n) (exec e h i v)
unfolding exec
exec_spares e h (bind f' symbol) v f n k = (rw k refl, refl)
exec_spares e h (native n' symbol) v f n k = (refl, rw k refl)
exec_spares e h (wrap f' function) v f n k = (rw k refl, refl)
exec_spares e h (wrap_if n' f' function) v f n k = (ground arith, ground arith)
exec_spares e h (fallback f' function) v f n k = (ground arith, ground arith)
exec_spares e h (bind_mt f' symbol) v f n k = (refl, refl)
exec_spares e h (assign name value) v f n k = (refl, refl)
exec_spares e h (resolve name symbol) v f n k = (refl, refl)
exec_spares e h (ignore symbol) v f n k = (refl, refl)

run_spares :
    (e : Env) (h : ℕ) (p : Program) (v : Vtable) (f n : String)
    → spares p f n ≡ true
    → Holds f n (v.unimpi f) (v.natives n) (run e h p v)
unfolding run
run_spares e h [] v f n k = (refl, refl)
run_spares e h ((gate, i) ∷ p) v f n k =
    let first : touches f n i ≡ false = ground arith in
    let rest : spares p f n ≡ true = ground arith in
    elim (Bool-cases (enabled e.target gate)) [
      | inl on ↦
          let (one, two) = exec_spares e h i v f n first in
          let (one', two') = run_spares e h p (exec e h i v) f n rest in
          rw (on, run) (one' ∙ one, two' ∙ two)
      | inr off ↦ rw (off, run) (run_spares e h p v f n rest)
    ]

-- The two statements: the pointer is looked up, and then the field takes the function.
abbrev looks_up : Gate → String → String → Gate × Instr → Bool
looks_up g f n (g', native n' symbol) =
    gate_eq g' g && (str_eq n' n && text_eq (codes symbol) (std_symbol f))
looks_up g f n _ = false

abbrev wraps : Gate → String → String → String → Gate × Instr → Bool
wraps g f n w (g', wrap f' function) = gate_eq g' g && (str_eq f' f && str_eq function w)
wraps g f n w (g', wrap_if n' f' function) =
    gate_eq g' g && (str_eq n' n && (str_eq f' f && str_eq function w))
wraps g f n w _ = false

abbrev wrapping : Gate → String → String → String → Program → Bool
wrapping g f n w [] = false
wrapping g f n w (x ∷ []) = false
wrapping g f n w (x ∷ y ∷ p) =
    wrapping g f n w (y ∷ p) || (looks_up g f n x && (wraps g f n w y && spares p f n))

is_nonzero : (a : ℕ) → a ≢ 0 → (a == 0) ≡ false
is_nonzero a n = ground arith

module _ (e : Env) (h : ℕ) (g : Gate) (f n w : String) (on : enabled e.target g ≡ true)
    (present : e.dlsym h (std_symbol f) ≢ 0) where
  step : Gate × Instr → Vtable → Vtable
  step x v = if enabled e.target x.0 then exec e h x.1 v else v

  looked_up :
      (x : Gate × Instr) (v : Vtable)
      → looks_up g f n x ≡ true
      → (step x v).natives n ≡ e.dlsym h (std_symbol f)
  unfolding step exec
  looked_up (g', native n' symbol) v k =
      let (same_gate, rest) =
        &&_true (gate_eq g' g) (str_eq n' n && text_eq (codes symbol) (std_symbol f)) k in
      let (same, same_symbol) =
        &&_true (str_eq n' n) (text_eq (codes symbol) (std_symbol f)) rest in
      rw (gate_eq→eq g' g same_gate, on, same)
        (ap (e.dlsym h) (text_eq→eq (codes symbol) (std_symbol f) same_symbol))
  looked_up (g', i) v k = absurd (ground (arith, k))

  wrapped :
      (y : Gate × Instr) (v : Vtable)
      → wraps g f n w y ≡ true
      → v.natives n ≡ e.dlsym h (std_symbol f)
      → Holds f n (e.address w) (e.dlsym h (std_symbol f)) (step y v)
  unfolding step exec
  wrapped (g', wrap f' function) v k pointer =
      let (same_gate, rest) = &&_true (gate_eq g' g) (str_eq f' f && str_eq function w) k in
      let (same, same_function) = &&_true (str_eq f' f) (str_eq function w) rest in
      let gate = gate_eq→eq g' g same_gate in
      let called = ap e.address ((eq_iff function w).0 same_function) in
      (rw (gate, on, same) called, rw (gate, on) pointer)
  wrapped (g', wrap_if n' f' function) v k pointer =
      let (same_gate, rest) =
        &&_true (gate_eq g' g) (str_eq n' n && (str_eq f' f && str_eq function w)) k in
      let (same_pointer, rest') = &&_true (str_eq n' n) (str_eq f' f && str_eq function w) rest in
      let (same, same_function) = &&_true (str_eq f' f) (str_eq function w) rest' in
      let gate = gate_eq→eq g' g same_gate in
      let name = (eq_iff n' n).0 same_pointer in
      let called = ap e.address ((eq_iff function w).0 same_function) in
      let found : (v.natives n == 0) ≡ false = rw pointer (is_nonzero _ present) in
      (rw (gate, on, name, found, same) called, rw (gate, on, name, found) pointer)
  wrapped (g', i) v k pointer = absurd (ground (arith, k))

  run_wrapping :
      (p : Program) (v : Vtable)
      → wrapping g f n w p ≡ true
      → Holds f n (e.address w) (e.dlsym h (std_symbol f)) (run e h p v)
  unfolding run step
  run_wrapping [] v k = absurd (ground (arith, k))
  run_wrapping (x ∷ []) v k = absurd (ground (arith, k))
  run_wrapping (x ∷ y ∷ p) v k = elim (Bool-cases (wrapping g f n w (y ∷ p))) [
    | inl later ↦ run_wrapping (y ∷ p) (step x v) later
    | inr here ↦
        let both : (looks_up g f n x && (wraps g f n w y && spares p f n)) ≡ true = rw here at k in
        let (first, rest) = &&_true (looks_up g f n x) (wraps g f n w y && spares p f n) both in
        let (second, spared) = &&_true (wraps g f n w y) (spares p f n) rest in
        let (one, two) = wrapped y (step x v) second (looked_up x v first) in
        let (one', two') = run_spares e h p (step y (step x v)) f n spared in
        (one' ∙ one, two' ∙ two)
  ]

abbrev pub takes_wrapper : String → Bool
takes_wrapper f = any (λ s. str_eq s f) wrapper_fields

-- Of the two parts of an init function the first one wraps the field, and the second spares it.
abbrev is_wrapped : String → Program → Program → Gate × String → Bool
is_wrapped b p q (g, f) =
    not (takes_wrapper f)
    || (wrapping g f (b <> "_" <> f) (b <> "_wrap_" <> f) p && spares q f (b <> "_" <> f))

all_mpich : all (is_wrapped "mpich" mpich_head mpich_tail) main_fields ≡ true
unfolding main_fields mpich_head mpich_tail
all_mpich = refl

all_intelmpi : all (is_wrapped "intelmpi" intelmpi_head intelmpi_tail) main_fields ≡ true
unfolding main_fields intelmpi_head intelmpi_tail
all_intelmpi = refl

all_msmpi : all (is_wrapped "msmpi" msmpi_program []) main_fields ≡ true
unfolding main_fields msmpi_program
all_msmpi = refl

-- The field holds the wrapper of its own name for the implementation, and the pointer that this
-- calls through is the library's symbol of the standard name.
abbrev pub Wraps : String → Env → ℕ → String → Vtable → Type 0
Wraps b e h f v =
    (v.unimpi f ≡ e.address (b <> "_wrap_" <> f))
    × (v.natives (b <> "_" <> f) ≡ e.dlsym h (std_symbol f))

two_parts-Wraps :
    (b : String) (p q : Program) (e : Env) (h : ℕ) (v : Vtable) (g : Gate) (f : String)
    (between : String → ℤ)
    → all (is_wrapped b p q) main_fields ≡ true
    → Memᴰ (g, f) main_fields
    → takes_wrapper f ≡ true
    → enabled e.target g ≡ true
    → e.dlsym h (std_symbol f) ≢ 0
    → Wraps b e h f (run e h q (record (run e h p v) { globals = between }))
two_parts-Wraps b p q e h v g f between checked m takes on present =
    let n = b <> "_" <> f in
    let w = b <> "_wrap_" <> f in
    let one : is_wrapped b p q (g, f) ≡ true = all-Memᴰ (is_wrapped b p q) main_fields checked m in
    let both : (wrapping g f n w p && spares q f n) ≡ true =
      subst (λ t. (not t || (wrapping g f n w p && spares q f n)) ≡ true) takes one in
    let (first, second) = &&_true (wrapping g f n w p) (spares q f n) both in
    let (function, pointer) = run_wrapping e h g f n w on present p v first in
    let (function', pointer') =
      run_spares e h q (record (run e h p v) { globals = between }) f n second in
    (function' ∙ function, pointer' ∙ pointer)

-- For each of the 17 fields that take a wrapper, where the target version declares it and the
-- library exports its standard name: after the init function for MPICH, Intel MPI or MS-MPI the
-- field holds the address of that implementation's wrapper of its own name, and the pointer that
-- the wrapper calls through holds the library's symbol of the standard name.
pub wrapped_fields :
    (e : Env) (h : ℕ) (v : Vtable) (g : Gate) (f : String)
    → Memᴰ (g, f) main_fields
    → takes_wrapper f ≡ true
    → enabled e.target g ≡ true
    → e.dlsym h (std_symbol f) ≢ 0
    → Wraps "mpich" e h f (unimpi_vtable_init_mpich e h v).1
      × Wraps "intelmpi" e h f (unimpi_vtable_init_intelmpi e h v).1
      × Wraps "msmpi" e h f (unimpi_vtable_init_msmpi e h v).1
unfolding unimpi_vtable_init_mpich unimpi_vtable_init_intelmpi unimpi_vtable_init_msmpi run
wrapped_fields e h v g f m takes on present = (
  two_parts-Wraps "mpich" mpich_head mpich_tail e h v g f _ all_mpich m takes on present,
  two_parts-Wraps "intelmpi" intelmpi_head intelmpi_tail e h v g f _ all_intelmpi m takes on
      present,
  two_parts-Wraps "msmpi" msmpi_program [] e h v g f (run e h msmpi_program v).globals all_msmpi m
      takes on present,
)
