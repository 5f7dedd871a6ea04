-- ===== src/Loader/Abi.antt =====
-- `path_names_standard_abi` of src/loader.c against the search for a substring.
use uni_mpi.Base.{
  ℕ, zero, suc, true, some, [], ◌∷◌, ◌++◌, map, ◌==◌, ==_iff, &&_true, length, take, ◌≤◌, ◌≡◌, refl,
  sym, ap, ◌⊎◌, inl, inr, ◌↔◌, arith, Bool-cases,
}
use uni_mpi.Base.Text.{Text, codes, contains, has_prefix, to_lower}
use uni_mpi.Loader.{path_names_standard_abi}
use mathlib.Core.Path.{ap₂}

-- `p` stands somewhere in `s`.
abbrev pub Occurs : Text → Text → Type 0
Occurs p s = (before : Text) × (after : Text) × (s ≡ before ++ (p ++ after))

-- The first 255 bytes, in lower case, hold one of the two names of the standard ABI.
abbrev pub NamesAbi : Text → Type 0
NamesAbi path =
    let lowered = map to_lower (take 255 path) in
    Occurs (codes "mpi_abi") lowered ⊎ Occurs (codes "mpi-abi") lowered

has_prefix→eq : (p s : Text) → has_prefix p s ≡ true → (after : Text) × (s ≡ p ++ after)
has_prefix→eq [] s h = (s, refl)
has_prefix→eq (a ∷ p) [] h = ground arith
has_prefix→eq (a ∷ p) (b ∷ s) h =
    let (same, rest) = &&_true (a == b) (has_prefix p s) h in
    let (after, e) = has_prefix→eq p s rest in (after, ap₂ ◌∷◌ (sym ((==_iff a b).0 same)) e)

has_prefix-append : (p after : Text) → has_prefix p (p ++ after) ≡ true
has_prefix-append [] after = refl
has_prefix-append (a ∷ p) after = ground (arith, has_prefix-append p after)

contains→Occurs : (p s : Text) → contains p s ≡ true → Occurs p s
contains→Occurs p [] h = let (after, e) = has_prefix→eq p [] h in ([], after, e)
contains→Occurs p (a ∷ s) h = elim (Bool-cases (has_prefix p (a ∷ s))) [
  | inl here ↦ let (after, e) = has_prefix→eq p (a ∷ s) here in ([], after, e)
  | inr later ↦
      let (before, after, e) = contains→Occurs p s (ground arith) in
      (a ∷ before, after, ap (◌∷◌ a) e)
]

contains-append : (p before after : Text) → contains p (before ++ (p ++ after)) ≡ true
contains-append p (a ∷ before) after = ground (arith, contains-append p before after)
contains-append [] [] [] = refl
contains-append [] [] (c ∷ after) = refl
contains-append (a ∷ p) [] after = ground (arith, has_prefix-append p after)

-- A path is rejected exactly when its first 255 bytes, in lower case, hold "mpi_abi" or "mpi-abi".
pub names_standard_abi_iff :
    (path : Text)
    → let lowered = map to_lower (take 255 path) in
      (path_names_standard_abi (some path) ≡ true)
      ↔ (Occurs (codes "mpi_abi") lowered ⊎ Occurs (codes "mpi-abi") lowered)
unfolding path_names_standard_abi
names_standard_abi_iff path =
    let lowered = map to_lower (take 255 path) in
    (
      λ h. elim (Bool-cases (contains (codes "mpi_abi") lowered)) [
        | inl first ↦ inl (contains→Occurs (codes "mpi_abi") lowered first)
        | inr other ↦ inr (contains→Occurs (codes "mpi-abi") lowered (ground arith))
      ],
      λ h. elim h [
        | inl (before, after, e) ↦ rw (e, contains-append (codes "mpi_abi") before after)
        | inr (before, after, e) ↦
            let found : contains (codes "mpi-abi") lowered ≡ true =
              rw e (contains-append (codes "mpi-abi") before after) in
            ground arith
      ],
    )

take-append_long : (n : ℕ) (xs ys : Text) → n ≤ length xs → take n (xs ++ ys) ≡ take n xs
take-append_long zero xs ys h = refl
take-append_long (suc n) [] ys h = absurd (omega arith)
take-append_long (suc n) (x ∷ xs) ys h = ap (◌∷◌ x) (take-append_long n xs ys (omega arith))

-- What stands behind the first 255 bytes is not looked at: a path with 255 bytes or more decides
-- the test for every path that it begins, also one that ends in "libmpi_abi.so".
pub standard_abi_truncates :
    (path rest : Text)
    → 255 ≤ length path
    → path_names_standard_abi (some (path ++ rest)) ≡ path_names_standard_abi (some path)
unfolding path_names_standard_abi
standard_abi_truncates path rest long = rw (take-append_long 255 path rest long)
