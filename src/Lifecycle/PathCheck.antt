-- ===== src/Lifecycle/PathCheck.antt =====
-- What `unimpi_vtable_init` of src/vtable.c checks when it passes the name of the last backend where
-- `unimpi_loader_check_platform_support` of src/loader.c expects the path of the library.
use uni_mpi.Base.{ℕ, false, Option, none, ◌≡◌, ◌≢◌, refl, arith, inl, inr, Bool-cases}
use uni_mpi.Base.Text.{Text}
use uni_mpi.Base.Int.{int_eq}
use uni_mpi.Codes.{Backend, unknown, openmpi, mpich, intelmpi, msmpi, ok, err_abi_mismatch}
use uni_mpi.Platform.{Env}
use uni_mpi.Vtable.{Vtable}
use uni_mpi.Loader.{
  unimpi_backends, path_names_standard_abi, unimpi_loader_identify_backend,
  unimpi_loader_check_platform_support,
}
use uni_mpi.Backends.Mpich.{unimpi_vtable_init_mpich}
use uni_mpi.Backends.Intelmpi.{unimpi_vtable_init_intelmpi}
use uni_mpi.Backends.Msmpi.{unimpi_vtable_init_msmpi}
use uni_mpi.Backends.Openmpi.{
  unimpi_vtable_init_openmpi, get_openmpi_comm_values, get_openmpi_datatype_values,
  get_openmpi_op_values,
}
use uni_mpi.Init.{unimpi_vtable_validate_core, init_backend, unimpi_vtable_init}
use uni_mpi.Lifecycle.State.{Core, name_of_type, save_backend_identity, clear_backend_identity}
use uni_mpi.Lifecycle.Loading.{fill}

-- No name in the table of backends names the standard ABI.
name_clear : (t : Backend) → path_names_standard_abi (name_of_type t unimpi_backends) ≡ false
unfolding name_of_type unimpi_backends path_names_standard_abi
name_clear openmpi = refl
name_clear mpich = refl
name_clear intelmpi = refl
name_clear msmpi = refl
name_clear unknown = refl

none_clear : path_names_standard_abi none ≡ false
unfolding path_names_standard_abi
none_clear = refl

openmpi_code :
    (e : Env) (h : ℕ) (v : Vtable) → (unimpi_vtable_init_openmpi e h v).0 ≢ err_abi_mismatch
unfolding unimpi_vtable_init_openmpi get_openmpi_comm_values get_openmpi_datatype_values
    get_openmpi_op_values
openmpi_code e h v same = ground arith

-- The initialisation of a backend never complains about the standard ABI.
backend_code :
    (t : Backend) (e : Env) (h : ℕ) (v : Vtable) → (init_backend t e h v).0 ≢ err_abi_mismatch
unfolding init_backend unimpi_vtable_init_mpich unimpi_vtable_init_intelmpi unimpi_vtable_init_msmpi
backend_code openmpi e h v same = openmpi_code e h v same
backend_code intelmpi e h v same = ground arith
backend_code msmpi e h v same = ground arith
backend_code mpich e h v same = ground arith
backend_code unknown e h v same = ground arith

support_code :
    (e : Env) (t : Backend) (name : Option Text)
    → path_names_standard_abi name ≡ false
    → unimpi_loader_check_platform_support e t name ≢ err_abi_mismatch
unfolding unimpi_loader_check_platform_support
support_code e t name clear same = ground arith

valid_code : (e : Env) (h : ℕ) → unimpi_vtable_validate_core e h ≢ err_abi_mismatch
unfolding unimpi_vtable_validate_core
valid_code e h same = ground arith

init_code :
    (e : Env) (h : ℕ) (name : Option Text) (v : Vtable)
    → path_names_standard_abi name ≡ false
    → (unimpi_vtable_init e h name v).0 ≢ err_abi_mismatch
unfolding unimpi_vtable_init
init_code e h name v clear same =
    let t = unimpi_loader_identify_backend e h in
    elim (Bool-cases (int_eq (unimpi_vtable_validate_core e h) ok)) [
      | inr not_valid ↦ valid_code e h (rw not_valid at same)
      | inl valid ↦ elim (Bool-cases (int_eq (unimpi_loader_check_platform_support e t name) ok)) [
        | inr not_supported ↦ support_code e t name clear (rw (valid, not_supported) at same)
        | inl supported ↦ backend_code t e h _ (rw (valid, supported) at same)
      ]
    ]

-- Once `save_backend_identity` has noted whatever implementation and path, or
-- `clear_backend_identity` has cleared them: filling the tables, whatever the library and the
-- table, never ends with UNIMPI_ERR_ABI_MISMATCH, the code for a path that names the standard ABI.
pub fill_abi_unchecked :
    (e : Env) (t : Backend) (path : Option Text) (s : Core)
    → ((fill e (save_backend_identity t path s)).0 ≢ err_abi_mismatch)
      × ((fill e (clear_backend_identity s)).0 ≢ err_abi_mismatch)
unfolding fill save_backend_identity clear_backend_identity
fill_abi_unchecked e t path s = (
  init_code e s.handle (name_of_type t unimpi_backends) s.vt (name_clear t),
  init_code e s.handle none s.vt none_clear,
)
