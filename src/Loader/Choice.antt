-- ===== src/Loader/Choice.antt =====
-- Which library `unimpi_loader_detect_backend` chooses, and what `unimpi_loader_load` opens.
use uni_mpi.Base.{
  List, ℕ, Bool, true, false, Option, none, some, [], ◌∷◌, ◌≡◌, ◌≢◌, refl, ◌⊎◌, inl, inr, arith,
  Option-cases, Bool-cases, ◌==◌, sym, if◌then◌else◌,
}
use mathlib.Core.Path.{subst}
use uni_mpi.Base.Text.{Text, codes, text_eq, text_eq→eq, text_eq_refl}
use uni_mpi.Base.Int.{ℤ}
use uni_mpi.Codes.{ok, err_invalid_argument, err_no_backend, err_abi_mismatch, err_backend_load}
use uni_mpi.Loader.Abi.{NamesAbi, names_standard_abi_iff}
use uni_mpi.Platform.{Env, Os, windows}
use uni_mpi.Loader.{
  BackendInfo, unimpi_backends, alternative_of, path_names_standard_abi,
  unimpi_loader_detect_backend, unimpi_loader_load, unimpi_loader_get_env_backend,
  unimpi_loader_get_env_libpath, lib_name_of, nonempty, default_path, open_library,
}

nonempty_ne : (o : Option Text) (path : Text) → nonempty o ≡ some path → path ≢ []
nonempty_ne none path h e = cc
nonempty_ne (some []) path h e = cc
nonempty_ne (some (c ∷ s)) path h e = ground arith

abbrev HasLibraries : List BackendInfo → Type 0
HasLibraries [] = Unit {0}
HasLibraries (b ∷ bs) = (b.lib_name ≢ []) × HasLibraries bs

lib_name_of_ne :
    (name path : Text) (bs : List BackendInfo)
    → HasLibraries bs
    → lib_name_of name bs ≡ some path
    → path ≢ []
unfolding lib_name_of
lib_name_of_ne name path [] l h e = cc
lib_name_of_ne name path (b ∷ bs) l h e = elim (Bool-cases (text_eq b.name name)) [
  | inl same ↦ l.0 (ground arith)
  | inr other ↦ lib_name_of_ne name path bs l.1 (ground arith) e
]

table_ne : (name path : Text) → lib_name_of name unimpi_backends ≡ some path → path ≢ []
unfolding unimpi_backends
table_ne name path h =
    lib_name_of_ne name path unimpi_backends ((λ e. cc), ((λ e. cc), ((λ e. cc), ((λ e. cc), tt))))
      h

default_ne : (os : Os) → default_path os ≢ []
default_ne windows e = cc
default_ne _ e = cc

-- With somewhere to write to, a library is always chosen, and its path is never empty.
pub detect_total :
    (e : Env)
    → (path : Text) × (unimpi_loader_detect_backend e true ≡ (ok, some path)) × (path ≢ [])
unfolding unimpi_loader_detect_backend
detect_total e = elim (Option-cases (unimpi_loader_get_env_libpath e)) [
  | inr (path, h) ↦ (path, rw (unimpi_loader_detect_backend, h), nonempty_ne _ path h)
  | inl h ↦ elim (Option-cases (unimpi_loader_get_env_backend e)) [
    | inl k ↦ (default_path e.os, rw (unimpi_loader_detect_backend, h, k), default_ne e.os)
    | inr (backend, k) ↦ elim (Option-cases (lib_name_of backend unimpi_backends)) [
      | inl m ↦ (backend, rw (unimpi_loader_detect_backend, h, k, m), nonempty_ne _ backend k)
      | inr (path, m) ↦ (path, rw (unimpi_loader_detect_backend, h, k, m), table_ne backend path m)
    ]
  ]
]

-- All outcomes of a load. NULL for the path is `none`, and `out` says whether there is somewhere to
-- write the handle to. Of the known libraries only Open MPI's has a second name.
pub data Loads (e : Env) : Option Text → Bool → ℤ × ℕ → Type 0 where
  no_out : {path : Option Text} → Loads e path false (err_invalid_argument, 0)
  no_path : Loads e none true (err_no_backend, 0)
  standard_abi : {p : Text} → NamesAbi p → Loads e (some p) true (err_abi_mismatch, 0)
  opened :
      {p : Text} {h : ℕ} → ¬ NamesAbi p → h ≢ 0 → e.dlopen p ≡ h → Loads e (some p) true (ok, h)
  fell_back :
      {p : Text} {h : ℕ}
      → ¬ NamesAbi p
      → e.dlopen p ≡ 0
      → p ≡ codes "libmpi.so.40"
      → h ≢ 0
      → e.dlopen (codes "libmpi.so.20") ≡ h
      → Loads e (some p) true (ok, h)
  unavailable :
      {p : Text}
      → ¬ NamesAbi p
      → e.dlopen p ≡ 0
      → (p ≡ codes "libmpi.so.40" → e.dlopen (codes "libmpi.so.20") ≡ 0)
      → Loads e (some p) true (err_backend_load, 0)

text_ne : (p : Text) → text_eq (codes "libmpi.so.40") p ≡ false → codes "libmpi.so.40" ≢ p
text_ne p other h =
    let same : text_eq (codes "libmpi.so.40") p ≡ true =
      subst (λ t. text_eq (codes "libmpi.so.40") t ≡ true) h
        (text_eq_refl (codes "libmpi.so.40")) in
    ground arith

-- The other libraries have no second name.
no_alternatives :
    (p : Text) → text_eq (codes "libmpi.so.40") p ≡ false → alternative_of p unimpi_backends ≡ none
unfolding unimpi_backends alternative_of
no_alternatives p other = elim (Bool-cases (text_eq (codes "libmpich.so") p)) [
  | inl a ↦ rw (other, a) refl
  | inr a ↦ elim (Bool-cases (text_eq (codes "libmpi.so") p)) [
    | inl b ↦ rw (other, a, b) refl
    | inr b ↦ elim (Bool-cases (text_eq (codes "msmpi.dll") p)) [
      | inl c ↦ rw (other, a, b, c) refl
      | inr c ↦ rw (other, a, b, c) refl
    ]
  ]
]

-- The library that the table has a second name for.
alternative_cases :
    (p : Text)
    → ((p ≡ codes "libmpi.so.40")
        × (alternative_of p unimpi_backends ≡ some (codes "libmpi.so.20")))
      ⊎ ((p ≢ codes "libmpi.so.40") × (alternative_of p unimpi_backends ≡ none))
unfolding unimpi_backends alternative_of
alternative_cases p = elim (Bool-cases (text_eq (codes "libmpi.so.40") p)) [
  | inl same ↦ inl (sym (text_eq→eq (codes "libmpi.so.40") p same), rw same refl)
  | inr other ↦
      let differs : p ≢ codes "libmpi.so.40" = λ h. text_ne p other (sym h) in
      inr (differs, no_alternatives p other)
]

-- What `unimpi_loader_load` makes of the handle that `dlopen` gives it in the end.
abbrev handed_out : ℕ → ℤ × ℕ
handed_out h = if h == 0 then (err_backend_load, 0) else (ok, h)

load_opens :
    (e : Env) (p : Text)
    → path_names_standard_abi (some p) ≡ false
    → unimpi_loader_load e (some p) true ≡ handed_out (open_library e p)
unfolding unimpi_loader_load
load_opens e p clear = rw clear refl

open_first : (e : Env) (p : Text) → (e.dlopen p == 0) ≡ false → open_library e p ≡ e.dlopen p
unfolding open_library
open_first e p present = rw present refl

open_second :
    (e : Env) (p alt : Text)
    → e.dlopen p ≡ 0
    → alternative_of p unimpi_backends ≡ some alt
    → open_library e p ≡ e.dlopen alt
unfolding open_library
open_second e p alt absent known = rw (absent, known) refl

open_none :
    (e : Env) (p : Text)
    → e.dlopen p ≡ 0
    → alternative_of p unimpi_backends ≡ none
    → open_library e p ≡ 0
unfolding open_library
open_none e p absent none_known = rw (absent, none_known) refl

opens : (e : Env) (p : Text) → ¬ NamesAbi p → Loads e (some p) true (handed_out (open_library e p))
opens e p free = elim (Bool-cases (e.dlopen p == 0)) [
  | inr present ↦ rw (open_first e p present, present) (opened free (ground arith) refl)
  | inl absent ↦
      let missing : e.dlopen p ≡ 0 = ground arith in
      elim (alternative_cases p) [
        | inr (other, none_known) ↦
            rw (open_none e p missing none_known)
              (unavailable free missing (λ same. absurd (other same)))
        | inl (same, known) ↦ elim (Bool-cases (e.dlopen (codes "libmpi.so.20") == 0)) [
          | inl gone ↦
              rw (open_second e p _ missing known, gone)
                (unavailable free missing (λ k. ground arith))
          | inr found ↦
              rw (open_second e p _ missing known, found)
                (fell_back free missing same (ground arith) refl)
        ]
      ]
]

-- Every outcome of a load, and when it comes about. Without a place for the handle it is
-- UNIMPI_ERR_INVALID_ARGUMENT, and without a path UNIMPI_ERR_NO_BACKEND. A path whose first 255
-- bytes, in lower case, hold "mpi_abi" or "mpi-abi" is refused with UNIMPI_ERR_ABI_MISMATCH. With
-- UNIMPI_OK comes a handle that is not NULL, the one that `dlopen` has given for the path, or,
-- where that was NULL and the path is libmpi.so.40, for libmpi.so.20. UNIMPI_ERR_BACKEND_LOAD means
-- that `dlopen` has given NULL for the path, and for libmpi.so.20 too if the path is libmpi.so.40.
-- With every error the handle is NULL.
pub load_outcome :
    (e : Env) (path : Option Text) (out : Bool) → Loads e path out (unimpi_loader_load e path out)
unfolding unimpi_loader_load
load_outcome e path false = no_out
load_outcome e none true = no_path
load_outcome e (some p) true = elim (Bool-cases (path_names_standard_abi (some p))) [
  | inl named ↦ rw named (standard_abi ((names_standard_abi_iff p).0 named))
  | inr clear ↦
      let free : ¬ NamesAbi p = λ n. ground (arith, (names_standard_abi_iff p).1 n) in
      rw (load_opens e p clear) (opens e p free)
]

-- A successful load gives a handle.
pub load_nonzero :
    (e : Env) (path : Option Text) (out : Bool)
    → (unimpi_loader_load e path out).0 ≡ ok
    → (unimpi_loader_load e path out).1 ≢ 0
unfolding unimpi_loader_load
load_nonzero e none false k = ground (arith, k)
load_nonzero e (some p) false k = ground (arith, k)
load_nonzero e none true k = ground (arith, k)
load_nonzero e (some p) true k = ground arith

pub load_error :
    (e : Env) (path : Option Text) (out : Bool)
    → (unimpi_loader_load e path out).0 ≢ ok
    → (unimpi_loader_load e path out).1 ≡ 0
unfolding unimpi_loader_load
load_error e none false n = refl
load_error e (some p) false n = refl
load_error e none true n = refl
load_error e (some p) true n = ground arith
