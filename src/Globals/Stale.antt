-- ===== src/Globals/Stale.antt =====
-- The predefined datatypes and operations when one library follows another.
use mathlib.Core.List.{Memᴰ}
use uni_mpi.Base.{
  ℕ, Bool, true, false, String, List, [], ◌∷◌, Option, str_eq, all, any, not, ◌&&◌, ◌||◌, ◌≡◌, ◌≢◌,
  refl, arith, ◌∙◌, Bool-cases, inl, inr,
}
use uni_mpi.Base.Text.{Text}
use uni_mpi.Base.Int.{ℤ, int_eq}
use uni_mpi.Codes.{Backend, unknown, openmpi, mpich, intelmpi, msmpi, ok}
use uni_mpi.Platform.{Env}
use uni_mpi.Vtable.{
  Vtable, Instr, bind, bind_mt, native, wrap, wrap_if, fallback, assign, resolve, ignore, Program,
  exec, run, enabled,
}
use uni_mpi.Vtable.Binding.{all-Memᴰ}
use uni_mpi.Loader.{unimpi_loader_identify_backend, unimpi_loader_check_platform_support}
use uni_mpi.Backends.Mpich.{mpich_head, mpich_tail, unimpi_vtable_init_mpich}
use uni_mpi.Backends.Intelmpi.{intelmpi_head, intelmpi_tail, unimpi_vtable_init_intelmpi}
use uni_mpi.Backends.Msmpi.{msmpi_program, unimpi_vtable_init_msmpi}
use uni_mpi.Init.{
  init_backend, reset, unimpi_vtable_init, unimpi_vtable_validate_core, unimpi_vtable_cleanup,
}

-- The variables of the predefined datatypes and operations.
abbrev pub handle_names : List String
handle_names =
    "UNIMPI_CHAR" ∷ "UNIMPI_SIGNED_CHAR" ∷ "UNIMPI_UNSIGNED_CHAR" ∷ "UNIMPI_BYTE" ∷ "UNIMPI_SHORT"
    ∷ "UNIMPI_UNSIGNED_SHORT" ∷ "UNIMPI_INT" ∷ "UNIMPI_UNSIGNED" ∷ "UNIMPI_LONG"
    ∷ "UNIMPI_UNSIGNED_LONG" ∷ "UNIMPI_FLOAT" ∷ "UNIMPI_DOUBLE" ∷ "UNIMPI_LONG_DOUBLE"
    ∷ "UNIMPI_LONG_LONG_INT" ∷ "UNIMPI_LONG_LONG" ∷ "UNIMPI_UNSIGNED_LONG_LONG" ∷ "UNIMPI_MAX"
    ∷ "UNIMPI_MIN" ∷ "UNIMPI_SUM" ∷ "UNIMPI_PROD" ∷ "UNIMPI_LAND" ∷ "UNIMPI_BAND" ∷ "UNIMPI_LOR"
    ∷ "UNIMPI_BOR" ∷ "UNIMPI_LXOR" ∷ "UNIMPI_BXOR" ∷ "UNIMPI_MINLOC" ∷ "UNIMPI_MAXLOC" ∷ []

abbrev pub sets : String → Instr → Bool
sets s (assign name value) = str_eq name s
sets s (resolve name symbol) = str_eq name s
sets s _ = false

abbrev pub leaves : Program → String → Bool
leaves p s = not (any (λ x. sets s x.1) p)

-- The variables that are set outside of the programs.
abbrev is_special : String → Bool
is_special s =
    str_eq "UNIMPI_COMM_WORLD" s || (str_eq "UNIMPI_COMM_SELF" s || str_eq "UNIMPI_STATUS_IGNORE" s)

exec_keeps :
    (e : Env) (h : ℕ) (i : Instr) (v : Vtable) (s : String)
    → sets s i ≡ false
    → (exec e h i v).globals s ≡ v.globals s
unfolding exec
exec_keeps e h (assign name value) v s n = rw n refl
exec_keeps e h (resolve name symbol) v s n = rw n refl
exec_keeps e h (bind f y) v s n = refl
exec_keeps e h (bind_mt f y) v s n = refl
exec_keeps e h (native f y) v s n = refl
exec_keeps e h (wrap f y) v s n = refl
exec_keeps e h (wrap_if a f y) v s n = ground arith
exec_keeps e h (fallback f y) v s n = ground arith
exec_keeps e h (ignore y) v s n = refl

pub run_keeps :
    (e : Env) (h : ℕ) (p : Program) (v : Vtable) (s : String)
    → leaves p s ≡ true
    → (run e h p v).globals s ≡ v.globals s
unfolding run
run_keeps e h [] v s n = refl
run_keeps e h ((gate, i) ∷ p) v s n =
    let first : sets s i ≡ false = ground arith in
    let rest : leaves p s ≡ true = ground arith in
    elim (Bool-cases (enabled e.target gate)) [
      | inl on ↦ rw (on, run) (run_keeps e h p (exec e h i v) s rest ∙ exec_keeps e h i v s first)
      | inr off ↦ rw (off, run) (run_keeps e h p v s rest)
    ]

-- Neither part of an init function, nor what it does between them, sets the variable.
abbrev untouched : Program → Program → String → Bool
untouched p q s = leaves p s && (leaves q s && not (is_special s))

mpich_untouched : all (untouched mpich_head mpich_tail) handle_names ≡ true
unfolding mpich_head mpich_tail
mpich_untouched = refl

intelmpi_untouched : all (untouched intelmpi_head intelmpi_tail) handle_names ≡ true
unfolding intelmpi_head intelmpi_tail
intelmpi_untouched = refl

msmpi_untouched : all (untouched [] msmpi_program) handle_names ≡ true
unfolding msmpi_program
msmpi_untouched = refl

-- Between the two parts only the communicators' variables are set.
two_parts_keep :
    (e : Env) (h : ℕ) (p q : Program) (v : Vtable) (between : String → ℤ) (s : String)
    → untouched p q s ≡ true
    → between s ≡ (run e h p v).globals s
    → (run e h q (record (run e h p v) { globals = between })).globals s ≡ v.globals s
two_parts_keep e h p q v between s n same =
    let first : leaves p s ≡ true = ground arith in
    let second : leaves q s ≡ true = ground arith in
    run_keeps e h q (record (run e h p v) { globals = between }) s second
    ∙ same
    ∙ run_keeps e h p v s first

init_backend_keeps :
    (t : Backend) (e : Env) (h : ℕ) (v : Vtable) (s : String)
    → t ≢ openmpi
    → Memᴰ s handle_names
    → (init_backend t e h v).1.globals s ≡ v.globals s
unfolding init_backend unimpi_vtable_init_mpich unimpi_vtable_init_intelmpi unimpi_vtable_init_msmpi
init_backend_keeps openmpi e h v s n m = absurd (n refl)
init_backend_keeps mpich e h v s n m =
    let free : untouched mpich_head mpich_tail s ≡ true =
      all-Memᴰ (untouched mpich_head mpich_tail) handle_names mpich_untouched m in
    two_parts_keep e h mpich_head mpich_tail v _ s free (ground arith)
init_backend_keeps unknown e h v s n m =
    let free : untouched mpich_head mpich_tail s ≡ true =
      all-Memᴰ (untouched mpich_head mpich_tail) handle_names mpich_untouched m in
    two_parts_keep e h mpich_head mpich_tail v _ s free (ground arith)
init_backend_keeps intelmpi e h v s n m =
    let free : untouched intelmpi_head intelmpi_tail s ≡ true =
      all-Memᴰ (untouched intelmpi_head intelmpi_tail) handle_names intelmpi_untouched m in
    two_parts_keep e h intelmpi_head intelmpi_tail v _ s free (ground arith)
init_backend_keeps msmpi e h v s n m =
    let free : untouched [] msmpi_program s ≡ true =
      all-Memᴰ (untouched [] msmpi_program) handle_names msmpi_untouched m in
    run_keeps e h msmpi_program v s (ground arith)

cleared_keeps :
    (e : Env) (v : Vtable) (s : String)
    → is_special s ≡ false
    → (reset e (unimpi_vtable_cleanup v)).globals s ≡ v.globals s
unfolding reset unimpi_vtable_cleanup
cleared_keeps e v s n = ground arith

-- Neither `unimpi_vtable_cleanup` nor a later `unimpi_vtable_init` of a library that is not
-- recognised as Open MPI, whatever it returns, assigns the variable of a predefined datatype or
-- operation: it keeps the value from before, also where that is an address in the library that
-- has been unloaded.
pub stale_handles :
    (e : Env) (h : ℕ) (name : Option Text) (v : Vtable) (s : String)
    → unimpi_loader_identify_backend e h ≢ openmpi
    → Memᴰ s handle_names
    → (unimpi_vtable_init e h name (unimpi_vtable_cleanup v)).1.globals s ≡ v.globals s
unfolding unimpi_vtable_init unimpi_vtable_cleanup reset
stale_handles e h name v s n m =
    let t = unimpi_loader_identify_backend e h in
    let emptied = reset e (unimpi_vtable_cleanup v) in
    let filled = record emptied { backend_type = t; backend_handle = h } in
    let free : untouched [] msmpi_program s ≡ true =
      all-Memᴰ (untouched [] msmpi_program) handle_names msmpi_untouched m in
    let kept = cleared_keeps e v s (ground arith) in
    elim (Bool-cases (int_eq (unimpi_vtable_validate_core e h) ok)) [
      | inl valid ↦ elim (Bool-cases (int_eq (unimpi_loader_check_platform_support e t name) ok)) [
        | inl supported ↦ rw (valid, supported) (init_backend_keeps t e h filled s n m ∙ kept)
        | inr unsupported ↦ rw (valid, unsupported) kept
      ]
      | inr invalid ↦ rw invalid kept
    ]
