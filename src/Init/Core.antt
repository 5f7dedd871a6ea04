-- ===== src/Init/Core.antt =====
-- What a successful `unimpi_vtable_init` guarantees.
use mathlib.Core.List.{Memᴰ}
use uni_mpi.Base.{ℕ, false, Option, String, ◌≡◌, ◌≢◌, refl, arith, inl, inr, Bool-cases}
use uni_mpi.Base.Text.{Text}
use uni_mpi.Base.Int.{int_eq, int_eq_iff}
use uni_mpi.Codes.{Backend, unknown, openmpi, mpich, intelmpi, msmpi, ok}
use uni_mpi.Platform.{Env}
use uni_mpi.Vtable.{Vtable, Gate, base, mpi_3_0, enabled}
use uni_mpi.Vtable.Binding.{std_symbol, declares→Memᴰ}
use uni_mpi.Fields.{main_fields, mt_fields}
use uni_mpi.Loader.{unimpi_loader_identify_backend, unimpi_loader_check_platform_support}
use uni_mpi.Loader.Identity.{Supported, support-Supported}
use uni_mpi.Backends.Parity.{
  IsBound, mpich-fields, intelmpi-fields, msmpi-fields, openmpi-fields, legacy_local, openmpi_local,
}
use uni_mpi.Init.{unimpi_vtable_validate_core, init_backend, reset, unimpi_vtable_init}

-- The functions that `unimpi_vtable_validate_core` requires.
pub data Required : String → Type 0 where
  init : Required "init"
  finalize : Required "finalize"
  comm_size : Required "comm_size"
  comm_rank : Required "comm_rank"

-- The fields that no backend gives a function of UniMPI.
abbrev pub IsShared : String → Type 0
IsShared f = (legacy_local f ≡ false) × (openmpi_local f ≡ false)

-- A required field is declared for every target, and never holds a function of UniMPI.
Required-declared : {f : String} → Required f → Memᴰ (base, f) main_fields × IsShared f
unfolding main_fields
Required-declared init = (declares→Memᴰ base "init" main_fields refl, (refl, refl))
Required-declared finalize = (declares→Memᴰ base "finalize" main_fields refl, (refl, refl))
Required-declared comm_size = (declares→Memᴰ base "comm_size" main_fields refl, (refl, refl))
Required-declared comm_rank = (declares→Memᴰ base "comm_rank" main_fields refl, (refl, refl))

mt_declared : Memᴰ (mpi_3_0, "t_finalize") mt_fields
unfolding mt_fields
mt_declared = declares→Memᴰ mpi_3_0 "t_finalize" mt_fields refl

-- Whichever implementation has been recognised, once its init function has returned UNIMPI_OK: a
-- field of `unimpi` to which no implementation gives a function of UniMPI holds the library's symbol
-- of its standard name if the target version declares the field, and what it held before if not;
-- every field of `unimpi_mt` does so.
pub init_backend-IsBound :
    (t : Backend) (e : Env) (h : ℕ) (v : Vtable) (g g' : Gate) (f k : String)
    → (init_backend t e h v).0 ≡ ok
    → Memᴰ (g, f) main_fields
    → IsShared f
    → Memᴰ (g', k) mt_fields
    → let v' = (init_backend t e h v).1 in
      IsBound e h g f (v.unimpi f) (v'.unimpi f) × IsBound e h g' k (v.unimpi_mt k) (v'.unimpi_mt k)
unfolding init_backend
init_backend-IsBound openmpi e h v g g' f k r m l n = openmpi-fields e h v g g' f k r m l.1 n
init_backend-IsBound mpich e h v g g' f k r m l n = mpich-fields e h v g g' f k m l.0 n
init_backend-IsBound intelmpi e h v g g' f k r m l n = intelmpi-fields e h v g g' f k m l.0 n
init_backend-IsBound msmpi e h v g g' f k r m l n = msmpi-fields e h v g g' f k m l.0 n
init_backend-IsBound unknown e h v g g' f k r m l n = mpich-fields e h v g g' f k m l.0 n

init_backend_bound :
    (t : Backend) (e : Env) (h : ℕ) (v : Vtable) (f : String)
    → Required f
    → (init_backend t e h v).0 ≡ ok
    → (init_backend t e h v).1.unimpi f ≡ e.dlsym h (std_symbol f)
unfolding enabled
init_backend_bound t e h v f r k =
    let (m, l) = Required-declared r in
    (init_backend-IsBound t e h v base mpi_3_0 f "t_finalize" k m l mt_declared).0

Required-valid :
    (e : Env) (h : ℕ) {f : String}
    → Required f
    → unimpi_vtable_validate_core e h ≡ ok
    → e.dlsym h (std_symbol f) ≢ 0
unfolding unimpi_vtable_validate_core
Required-valid e h init k = ground arith
Required-valid e h finalize k = ground arith
Required-valid e h comm_size k = ground arith
Required-valid e h comm_rank k = ground arith

-- The three steps of a successful run.
pub init_steps :
    (e : Env) (h : ℕ) (name : Option Text) (v : Vtable)
    → (unimpi_vtable_init e h name v).0 ≡ ok
    → let t = unimpi_loader_identify_backend e h in
      (unimpi_vtable_validate_core e h ≡ ok)
      × (unimpi_loader_check_platform_support e t name ≡ ok)
      × (unimpi_vtable_init e h name v
          ≡ init_backend t e h (record (reset e v) { backend_type = t; backend_handle = h }))
unfolding unimpi_vtable_init
init_steps e h name v k =
    let valid = unimpi_vtable_validate_core e h in
    let supported =
      unimpi_loader_check_platform_support e (unimpi_loader_identify_backend e h) name in
    elim (Bool-cases (int_eq valid ok)) [
      | inl is_valid ↦ elim (Bool-cases (int_eq supported ok)) [
        | inl is_supported ↦ (
          (int_eq_iff valid ok).0 is_valid,
          (int_eq_iff supported ok).0 is_supported,
          rw (is_valid, is_supported),
        )
        | inr not_supported ↦ absurd (ground (arith, int_eq_iff supported ok))
      ]
      | inr not_valid ↦ absurd (ground (arith, int_eq_iff valid ok))
    ]

-- When `unimpi_vtable_init` returns UNIMPI_OK, the platform supports the implementation that was
-- recognised, and the table's fields for MPI_Init, MPI_Finalize, MPI_Comm_size and MPI_Comm_rank
-- are the library's own symbols and not NULL.
pub init_sound :
    (e : Env) (h : ℕ) (name : Option Text) (v : Vtable) (f : String)
    → (unimpi_vtable_init e h name v).0 ≡ ok
    → Required f
    → let v' = (unimpi_vtable_init e h name v).1 in
      Supported e.os (unimpi_loader_identify_backend e h)
      × (v'.unimpi f ≡ e.dlsym h (std_symbol f))
      × (v'.unimpi f ≢ 0)
init_sound e h name v f k r =
    let (valid, supported, same) = init_steps e h name v k in
    let t = unimpi_loader_identify_backend e h in
    let filled = record (reset e v) { backend_type = t; backend_handle = h } in
    let bound : (unimpi_vtable_init e h name v).1.unimpi f ≡ e.dlsym h (std_symbol f) =
      rw same (init_backend_bound t e h filled f r (rw same at k)) in
    (support-Supported e t name supported, bound, rw bound (Required-valid e h r valid))
