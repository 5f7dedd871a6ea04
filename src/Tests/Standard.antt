-- ===== src/Tests/Standard.antt =====
-- Standard names in a program that runs on MPICH.
use mathlib.Core.List.{Memᴰ}
use uni_mpi.Base.{ℕ, zero, suc, Option, some, none, List, [], ◌∷◌, ◌≡◌, refl, true, false}
use uni_mpi.Base.Text.{codes}
use uni_mpi.Vtable.{base, mpi_3_0, enabled}
use uni_mpi.Vtable.Binding.{declares→Memᴰ}
use uni_mpi.Fields.{main_fields, mt_fields}
use uni_mpi.Codes.{ok}
use uni_mpi.Init.{unimpi_vtable_init, unimpi_vtable_validate_core, init_backend}
use uni_mpi.Loader.{
  unimpi_loader_identify_backend, unimpi_loader_check_platform_support, path_names_standard_abi,
}
use uni_mpi.Backends.Mpich.{unimpi_vtable_init_mpich}
use uni_mpi.Names.{std_macros}
use uni_mpi.Names.Macro.{field, pointer}
use uni_mpi.Names.Parity.{Macro, names, names_mt, fields_have_macros}
use uni_mpi.Names.Calls.{macro_reaches_library}
use uni_mpi.Globals.Declared.{declared_variables, is_defined, declared_defined}
use uni_mpi.Tests.Demo.{mpich_linux_env, full_table}

entry {ℓ} : {A : Type ℓ} → ℕ → List A → Option A
entry n [] = none
entry zero (x ∷ xs) = some x
entry (suc n) (x ∷ xs) = entry n xs

entry-Memᴰ {ℓ} : {A : Type ℓ} (n : ℕ) (xs : List A) (x : A) → entry n xs ≡ some x → Memᴰ x xs
unfolding entry
entry-Memᴰ n [] x h = cc
entry-Memᴰ zero (y ∷ xs) x h = Memᴰ.head (cc)
entry-Memᴰ (suc n) (y ∷ xs) x h = Memᴰ.tail (entry-Memᴰ n xs x h)

abort_named : Memᴰ (base, "MPI_Abort", field "abort") std_macros
unfolding std_macros entry
abort_named = entry-Memᴰ 46 std_macros (base, "MPI_Abort", field "abort") refl

mpich_filled : (unimpi_vtable_init mpich_linux_env 12 (some (codes "mpich")) full_table).0 ≡ ok
unfolding unimpi_vtable_init unimpi_vtable_validate_core init_backend unimpi_vtable_init_mpich
    unimpi_loader_identify_backend unimpi_loader_check_platform_support path_names_standard_abi
mpich_filled = refl

abort_enabled : enabled mpich_linux_env.target base ≡ true
unfolding enabled
abort_enabled = refl

abort_pointer :
    let v = (unimpi_vtable_init mpich_linux_env 12 (some (codes "mpich")) full_table).1 in
    pointer (field "abort") v ≡ some (v.unimpi "abort")
unfolding pointer
abort_pointer = refl

macro_reaches_library_example :
    (unimpi_vtable_init mpich_linux_env 12 (some (codes "mpich")) full_table).1.unimpi "abort"
    ≡ mpich_linux_env.dlsym 12 (codes "MPI_Abort")
macro_reaches_library_example =
    macro_reaches_library mpich_linux_env 12 (some (codes "mpich")) full_table base "MPI_Abort"
      (field "abort")
      ((unimpi_vtable_init mpich_linux_env 12 (some (codes "mpich")) full_table).1.unimpi "abort")
      mpich_filled abort_named abort_enabled refl abort_pointer

send_declared : Memᴰ (base, "send") main_fields
unfolding main_fields
send_declared = declares→Memᴰ base "send" main_fields refl

cvar_declared : Memᴰ (mpi_3_0, "t_cvar_read") mt_fields
unfolding mt_fields
cvar_declared = declares→Memᴰ mpi_3_0 "t_cvar_read" mt_fields refl

fields_have_macros_example : Macro names base "send" × Macro names_mt mpi_3_0 "t_cvar_read"
fields_have_macros_example =
    fields_have_macros base mpi_3_0 "send" "t_cvar_read" send_declared refl cvar_declared refl

success_declared : Memᴰ (base, "MPI_SUCCESS") declared_variables
unfolding declared_variables entry
success_declared = entry-Memᴰ 0 declared_variables (base, "MPI_SUCCESS") refl

declared_defined_example :
    (is_defined base "MPI_SUCCESS" ≡ true)
    × (is_defined base "MPI_TEST_CANCELLED_TRUE" ≡ false)
    × (is_defined base "MPI_TEST_CANCELLED_FALSE" ≡ false)
declared_defined_example = declared_defined base "MPI_SUCCESS" success_declared refl
