-- ===== src/Errors/RoundTrip.antt =====
-- The names of the codes that a backend assigns.
use mathlib.Core.List.{Memᴰ}
use uni_mpi.Base.{
  ℕ, Bool, true, String, List, [], ◌∷◌, str_eq, eq_iff, all, any, ◌≡◌, refl, if◌then◌else◌,
}
use uni_mpi.Platform.{Env}
use uni_mpi.Vtable.{Vtable, Program, assign, run, exec, enabled}
use uni_mpi.Vtable.Binding.{all-Memᴰ}
use uni_mpi.Globals.{initial_globals}
use uni_mpi.Errors.{unimpi_mpi_error_string}
use uni_mpi.Errors.Names.{error_names}
use uni_mpi.Backends.Openmpi.{init_openmpi_error_codes}
use uni_mpi.Backends.Mpich.{init_mpich_error_codes}
use uni_mpi.Backends.Intelmpi.{init_intelmpi_error_codes}
use uni_mpi.Backends.Msmpi.{init_msmpi_error_codes}

-- The variables before a backend has assigned any.
abbrev pub unassigned : Vtable → Vtable
unassigned v = record v { globals = initial_globals }

abbrev is_error : String → Bool
is_error n = any (λ m. str_eq m n) error_names

-- The error variables that the statements assign.
abbrev pub assigned : Program → List String
assigned [] = []
assigned ((gate, assign name value) ∷ p) =
    let rest = assigned p in if is_error name then name ∷ rest else rest
assigned (_ ∷ p) = assigned p

abbrev pub named : Program → Env → ℕ → Vtable → String → Bool
named p e h v n =
    let g = (run e h p (unassigned v)).globals in str_eq (unimpi_mpi_error_string g (g n)) n

openmpi_named :
    (e : Env) (h : ℕ) (v : Vtable)
    → all (named init_openmpi_error_codes e h v) (assigned init_openmpi_error_codes) ≡ true
unfolding init_openmpi_error_codes initial_globals run exec enabled unimpi_mpi_error_string
    error_names
openmpi_named e h v = refl

mpich_named :
    (e : Env) (h : ℕ) (v : Vtable)
    → all (named init_mpich_error_codes e h v) (assigned init_mpich_error_codes) ≡ true
unfolding init_mpich_error_codes initial_globals run exec enabled unimpi_mpi_error_string
    error_names
mpich_named e h v = refl

intelmpi_named :
    (e : Env) (h : ℕ) (v : Vtable)
    → all (named init_intelmpi_error_codes e h v) (assigned init_intelmpi_error_codes) ≡ true
unfolding init_intelmpi_error_codes initial_globals run exec enabled unimpi_mpi_error_string
    error_names
intelmpi_named e h v = refl

msmpi_named :
    (e : Env) (h : ℕ) (v : Vtable)
    → all (named init_msmpi_error_codes e h v) (assigned init_msmpi_error_codes) ≡ true
unfolding init_msmpi_error_codes initial_globals run exec enabled unimpi_mpi_error_string
    error_names
msmpi_named e h v = refl

-- The name of a value that an assigned variable holds is that variable's own.
abbrev pub IsNamed : Program → Env → ℕ → Vtable → String → Type 0
IsNamed p e h v n =
    let g = (run e h p (unassigned v)).globals in unimpi_mpi_error_string g (g n) ≡ n

all-named :
    (p : Program) (e : Env) (h : ℕ) (v : Vtable) (n : String)
    → all (named p e h v) (assigned p) ≡ true
    → Memᴰ n (assigned p)
    → IsNamed p e h v n
all-named p e h v n good m =
    let g = (run e h p (unassigned v)).globals in
    (eq_iff (unimpi_mpi_error_string g (g n)) n).0 (all-Memᴰ (named p e h v) (assigned p) good m)

-- Once `init_openmpi_error_codes` has run on the variables' initial values, `unimpi_mpi_error_string` of the
-- value of every error variable that it assigns is the name of that variable, and of no other.
pub openmpi-names_codes :
    (e : Env) (h : ℕ) (v : Vtable) (n : String)
    → Memᴰ n (assigned init_openmpi_error_codes)
    → IsNamed init_openmpi_error_codes e h v n
openmpi-names_codes e h v n m = all-named init_openmpi_error_codes e h v n (openmpi_named e h v) m

-- Once `init_mpich_error_codes` has run on the variables' initial values, `unimpi_mpi_error_string` of the
-- value of every error variable that it assigns is the name of that variable, and of no other.
pub mpich-names_codes :
    (e : Env) (h : ℕ) (v : Vtable) (n : String)
    → Memᴰ n (assigned init_mpich_error_codes)
    → IsNamed init_mpich_error_codes e h v n
mpich-names_codes e h v n m = all-named init_mpich_error_codes e h v n (mpich_named e h v) m

-- Once `init_intelmpi_error_codes` has run on the variables' initial values, `unimpi_mpi_error_string` of the
-- value of every error variable that it assigns is the name of that variable, and of no other.
pub intelmpi-names_codes :
    (e : Env) (h : ℕ) (v : Vtable) (n : String)
    → Memᴰ n (assigned init_intelmpi_error_codes)
    → IsNamed init_intelmpi_error_codes e h v n
intelmpi-names_codes e h v n m =
    all-named init_intelmpi_error_codes e h v n (intelmpi_named e h v) m

-- Once `init_msmpi_error_codes` has run on the variables' initial values, `unimpi_mpi_error_string` of the
-- value of every error variable that it assigns is the name of that variable, and of no other.
pub msmpi-names_codes :
    (e : Env) (h : ℕ) (v : Vtable) (n : String)
    → Memᴰ n (assigned init_msmpi_error_codes)
    → IsNamed init_msmpi_error_codes e h v n
msmpi-names_codes e h v n m = all-named init_msmpi_error_codes e h v n (msmpi_named e h v) m
