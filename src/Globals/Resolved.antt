-- ===== src/Globals/Resolved.antt =====
-- The predefined datatypes and operations of Open MPI, during and after its use.
use mathlib.Core.List.{Memᴰ}
use mathlib.Core.Path.{ap₂, subst}
use uni_mpi.Base.{
  ℕ, Bool, true, false, String, [], ◌∷◌, ◌++◌, Option, str_eq, eq_iff, &&_true, all, any, not, ◌&&◌,
  ◌||◌, ◌≡◌, ◌≢◌, refl, arith, ◌∙◌, Bool-cases, inl, inr, ◌⊎◌,
}
use uni_mpi.Base.Text.{Text, codes}
use uni_mpi.Base.Int.{ℤ, pos}
use uni_mpi.Codes.{openmpi, ok}
use uni_mpi.Platform.{Env}
use uni_mpi.Vtable.{Vtable, Gate, base, Instr, resolve, Program, exec, run, enabled, update}
use uni_mpi.Vtable.Binding.{all-Memᴰ, any-Memᴰ}
use uni_mpi.Loader.{unimpi_loader_identify_backend}
use uni_mpi.Backends.Openmpi.{
  openmpi_head, openmpi_tail, unimpi_vtable_init_openmpi, get_openmpi_comm_values,
  get_openmpi_datatype_values, get_openmpi_op_values,
}
use uni_mpi.Backends.Openmpi.DatatypeMap.{datatype_map}
use uni_mpi.Backends.Openmpi.OpMap.{op_map}
use uni_mpi.Backends.Parity.{openmpi_ok}
use uni_mpi.Init.{unimpi_vtable_init, unimpi_vtable_cleanup}
use uni_mpi.Globals.Stale.{leaves, run_keeps, handle_names, stale_handles}

abbrev is_resolve : String → String → Gate × Instr → Bool
is_resolve s symbol (base, resolve name symbol') = str_eq name s && str_eq symbol' symbol
is_resolve s symbol _ = false

-- A statement of the program resolves the variable, and no later one sets it.
abbrev settles : Program → String → String → Bool
settles [] s symbol = false
settles (x ∷ p) s symbol = settles p s symbol || (leaves p s && is_resolve s symbol x)

is_resolve→eq :
    (s symbol : String) (x : Gate × Instr)
    → is_resolve s symbol x ≡ true
    → x ≡ (base, resolve s symbol)
is_resolve→eq s symbol (base, resolve name symbol') k =
    let (same, same') = &&_true (str_eq name s) (str_eq symbol' symbol) k in
    ap₂ (λ (a b : String). (base, resolve a b)) ((eq_iff name s).0 same)
      ((eq_iff symbol' symbol).0 same')
is_resolve→eq s symbol (gate, i) k = absurd (ground (arith, k))

update_at : (f : String → ℤ) (s : String) (a : ℤ) → update f s a s ≡ a
update_at f s a = rw ((eq_iff s s).1 refl) refl

run_resolves :
    (e : Env) (h : ℕ) (p : Program) (v : Vtable) (s symbol : String)
    → settles p s symbol ≡ true
    → (run e h p v).globals s ≡ pos (e.dlsym h (codes symbol))
unfolding run enabled exec
run_resolves e h [] v s symbol k = absurd (ground (arith, k))
run_resolves e h (x ∷ p) v s symbol k = elim (Bool-cases (settles p s symbol)) [
  | inl later ↦ run_resolves e h p _ s symbol later
  | inr here ↦
      let both : (leaves p s && is_resolve s symbol x) ≡ true = rw here at k in
      let (left, resolved) = &&_true (leaves p s) (is_resolve s symbol x) both in
      rw (is_resolve→eq s symbol x resolved) (run_keeps e h p _ s left ∙ update_at v.globals s _)
]

-- The value that one of the two tables gives the variable is still there at the end.
abbrev arrives : String → String → Bool
arrives s symbol =
    (settles op_map s symbol
      || (settles datatype_map s symbol && (not (str_eq "UNIMPI_LONG_LONG" s) && leaves op_map s)))
    && (leaves openmpi_tail s && any (λ t. str_eq t s) handle_names)

abbrev entry_arrives : Gate × Instr → Bool
entry_arrives (base, resolve s symbol) = arrives s symbol
entry_arrives x = false

all_arrive : all entry_arrives (datatype_map ++ op_map) ≡ true
unfolding datatype_map op_map openmpi_tail
all_arrive = refl

parts :
    (a b c d f g : Bool)
    → ((a || (b && (not c && d))) && (f && g)) ≡ true
    → (f ≡ true) × (g ≡ true) × ((a ≡ true) ⊎ ((b ≡ true) × (c ≡ false) × (d ≡ true)))
parts a b c d f g k = ground (arith, k)

arrives-parts :
    (s symbol : String)
    → arrives s symbol ≡ true
    → (leaves openmpi_tail s ≡ true)
      × (any (λ t. str_eq t s) handle_names ≡ true)
      × ((settles op_map s symbol ≡ true)
          ⊎ ((settles datatype_map s symbol ≡ true)
              × (str_eq "UNIMPI_LONG_LONG" s ≡ false)
              × (leaves op_map s ≡ true)))
arrives-parts s symbol =
    parts (settles op_map s symbol) (settles datatype_map s symbol) (str_eq "UNIMPI_LONG_LONG" s)
      (leaves op_map s) (leaves openmpi_tail s) (any (λ t. str_eq t s) handle_names)

openmpi_values :
    (e : Env) (h : ℕ) (v : Vtable) (s symbol : String)
    → arrives s symbol ≡ true
    → (unimpi_vtable_init_openmpi e h v).0 ≡ ok
    → (unimpi_vtable_init_openmpi e h v).1.globals s ≡ pos (e.dlsym h (codes symbol))
unfolding get_openmpi_datatype_values get_openmpi_op_values
openmpi_values e h v s symbol k good =
    let v1 = (get_openmpi_comm_values e h (run e h openmpi_head v)).1 in
    let v2 = (get_openmpi_datatype_values e h v1).1 in
    let v3 = (get_openmpi_op_values e h v2).1 in
    let (last, _, cases) = arrives-parts s symbol k in
    rw (openmpi_ok e h v good) (
      run_keeps e h openmpi_tail v3 s last ∙ (elim cases [
        | inl by_op ↦ run_resolves e h op_map v2 s symbol by_op
        | inr (first, own, kept) ↦
            run_keeps e h op_map v2 s kept
            ∙ (rw own (run_resolves e h datatype_map v1 s symbol first))
      ]))

-- The name is one of `handle_names`.
entry_named : (s symbol : String) → arrives s symbol ≡ true → Memᴰ s handle_names
entry_named s symbol k =
    let (t, m, same) = any-Memᴰ (λ t. str_eq t s) handle_names (arrives-parts s symbol k).1 in
    subst (λ x. Memᴰ x handle_names) ((eq_iff t s).0 same) m

-- After `unimpi_vtable_init_openmpi` has returned UNIMPI_OK, the variable of each predefined
-- datatype and operation that it looks up holds the address of its symbol in the library. It still
-- does after `unimpi_vtable_cleanup` and a later `unimpi_vtable_init`, whatever that returns, of a
-- library that is not recognised as Open MPI: nothing else is assigned to it.
pub openmpi_handles_stay :
    (e e' : Env) (h h' : ℕ) (name : Option Text) (v : Vtable) (s symbol : String)
    → (unimpi_vtable_init_openmpi e h v).0 ≡ ok
    → Memᴰ (base, resolve s symbol) (datatype_map ++ op_map)
    → unimpi_loader_identify_backend e' h' ≢ openmpi
    → let v1 = (unimpi_vtable_init_openmpi e h v).1 in
      (v1.globals s ≡ pos (e.dlsym h (codes symbol)))
      × ((unimpi_vtable_init e' h' name (unimpi_vtable_cleanup v1)).1.globals s
          ≡ pos (e.dlsym h (codes symbol)))
openmpi_handles_stay e e' h h' name v s symbol good m other =
    let k = all-Memᴰ entry_arrives (datatype_map ++ op_map) all_arrive m in
    let value = openmpi_values e h v s symbol k good in
    let v1 = (unimpi_vtable_init_openmpi e h v).1 in
    (value, stale_handles e' h' name v1 s other (entry_named s symbol k) ∙ value)
