-- ===== src/Names/Parity.antt =====
-- The standard names against the fields of the tables.
use mathlib.Core.List.{Memᴰ}
use mathlib.Core.Path.{subst}
use uni_mpi.Base.{
  Bool, true, false, String, [], ◌∷◌, str_eq, all, any, ◌&&◌, ◌||◌, &&_true, ◌≡◌, refl, arith,
}
use uni_mpi.Base.Text.{codes, text_eq, text_eq→eq}
use uni_mpi.Vtable.{Gate}
use uni_mpi.Vtable.Binding.{any-Memᴰ, std_symbol, declares, all-Memᴰ, gate_eq, gate_eq→eq}
use uni_mpi.Fields.{main_fields, mt_fields}
use uni_mpi.Names.{std_macros}
use uni_mpi.Names.Macro.{Replacement, field, mt_field, forward, variable, function, list_eq}

-- The field is declared under the macro's own `#if` and for the macro's own name, and arguments
-- are passed on in their order.
abbrev pub fits : Gate × String × Replacement → Bool
fits (g, m, field f) = text_eq (codes m) (std_symbol f) && declares g f main_fields
fits (g, m, mt_field f) = text_eq (codes m) (std_symbol f) && declares g f mt_fields
fits (g, m, forward parameters f arguments) =
    list_eq parameters arguments && (text_eq (codes m) (std_symbol f) && declares g f main_fields)
fits (g, m, variable name) = true
fits (g, m, function name) = true

pub macros_fit : all fits std_macros ≡ true
unfolding std_macros main_fields mt_fields
macros_fit = refl

-- The field of `unimpi` that a macro names.
abbrev pub names : String → Replacement → Bool
names f (field f') = str_eq f' f
names f (forward parameters f' arguments) = str_eq f' f
names f _ = false

abbrev pub names_mt : String → Replacement → Bool
names_mt f (mt_field f') = str_eq f' f
names_mt f _ = false

-- Starting and ending MPI, and asking about it, go through UniMPI itself.
abbrev pub wrapped : String → Bool
wrapped f =
    any (λ s. str_eq s f)
      ("init" ∷ "init_thread" ∷ "finalize" ∷ "initialized" ∷ "finalized" ∷ "t_init_thread"
        ∷ "t_finalize" ∷ [])

abbrev pub is_named : (String → Replacement → Bool) → Gate × String → Bool
is_named w (g, f) =
    wrapped f
    || any (λ x. gate_eq x.0 g && (text_eq (codes x.1) (std_symbol f) && w f x.2)) std_macros

main_named : all (is_named names) main_fields ≡ true
unfolding std_macros main_fields
main_named = refl

mt_named : all (is_named names_mt) mt_fields ≡ true
unfolding std_macros mt_fields
mt_named = refl

-- A macro under the gate for the standard name.
abbrev pub Macro : (String → Replacement → Bool) → Gate → String → Type 0
Macro w g f =
    (m : String) × (r : Replacement) × Memᴰ (g, m, r) std_macros
    × (codes m ≡ std_symbol f)
    × (w f r ≡ true)

in_gate :
    (g g' : Gate) (m : String) (r : Replacement)
    → gate_eq g' g ≡ true
    → Memᴰ (g', m, r) std_macros
    → Memᴰ (g, m, r) std_macros
in_gate g g' m r same = subst (λ gate. Memᴰ (gate, m, r) std_macros) (gate_eq→eq g' g same)

found :
    (w : String → Replacement → Bool) (g : Gate) (f : String)
    → is_named w (g, f) ≡ true
    → wrapped f ≡ false
    → Macro w g f
found w g f h n =
    let tests : Gate × String × Replacement → Bool =
      λ x. gate_eq x.0 g && (text_eq (codes x.1) (std_symbol f) && w f x.2) in
    let ((g', m, r), mem, good) = any-Memᴰ tests std_macros (ground arith) in
    let (same_gate, rest) =
      &&_true (gate_eq g' g) (text_eq (codes m) (std_symbol f) && w f r) good in
    let (same_name, goes) = &&_true (text_eq (codes m) (std_symbol f)) (w f r) rest in
    (m, r, in_gate g g' m r same_gate mem, text_eq→eq (codes m) (std_symbol f) same_name, goes)

-- Every declared field of the two tables, but for the seven of which UniMPI has its own function,
-- has a macro under the same target version whose name is the field's standard name, and which
-- stands for the field.
pub fields_have_macros :
    (g g' : Gate) (f k : String)
    → Memᴰ (g, f) main_fields
    → wrapped f ≡ false
    → Memᴰ (g', k) mt_fields
    → wrapped k ≡ false
    → Macro names g f × Macro names_mt g' k
fields_have_macros g g' f k m n m' n' = (
  found names g f (all-Memᴰ (is_named names) main_fields main_named m) n,
  found names_mt g' k (all-Memᴰ (is_named names_mt) mt_fields mt_named m') n',
)
