-- ===== src/Tests/Tables.antt =====
-- Filling the function tables.
use mathlib.Core.List.{Memᴰ}
use uni_mpi.Base.{refl, true, arith, ◌≡◌, ◌≢◌}
use uni_mpi.Codes.{intelmpi, ok}
use uni_mpi.Vtable.{base, mpi_3_0, enabled}
use uni_mpi.Vtable.Binding.{declares→Memᴰ, std_symbol}
use uni_mpi.Fields.{main_fields, mt_fields}
use uni_mpi.Backends.Openmpi.{
  unimpi_vtable_init_openmpi, get_openmpi_comm_values, get_openmpi_datatype_values,
  get_openmpi_op_values,
}
use uni_mpi.Backends.Mpich.{unimpi_vtable_init_mpich}
use uni_mpi.Backends.Intelmpi.{unimpi_vtable_init_intelmpi}
use uni_mpi.Backends.Msmpi.{unimpi_vtable_init_msmpi}
use uni_mpi.Backends.Parity.{mpich-fields, openmpi-fields, IsBound}
use uni_mpi.Backends.Wrapped.{Wraps, wrapped_fields}
use uni_mpi.Init.{init_backend}
use uni_mpi.Init.Core.{init_backend-IsBound}
use uni_mpi.Tests.Demo.{mpich_linux_env, openmpi_linux_env, full_table}

send_declared : Memᴰ (base, "send") main_fields
unfolding main_fields
send_declared = declares→Memᴰ base "send" main_fields refl

t_finalize_declared : Memᴰ (mpi_3_0, "t_finalize") mt_fields
unfolding mt_fields
t_finalize_declared = declares→Memᴰ mpi_3_0 "t_finalize" mt_fields refl

mpich-fields_example :
    let v = (unimpi_vtable_init_mpich mpich_linux_env 12 full_table).1 in
    IsBound mpich_linux_env 12 base "send" 50 (v.unimpi "send")
    × IsBound mpich_linux_env 12 mpi_3_0 "t_finalize" 60 (v.unimpi_mt "t_finalize")
mpich-fields_example =
    mpich-fields mpich_linux_env 12 full_table base mpi_3_0 "send" "t_finalize" send_declared refl
      t_finalize_declared

intelmpi_returns : (init_backend intelmpi mpich_linux_env 12 full_table).0 ≡ ok
unfolding init_backend unimpi_vtable_init_intelmpi
intelmpi_returns = refl

init_backend-IsBound_example :
    let v = (init_backend intelmpi mpich_linux_env 12 full_table).1 in
    IsBound mpich_linux_env 12 base "send" 50 (v.unimpi "send")
    × IsBound mpich_linux_env 12 mpi_3_0 "t_finalize" 60 (v.unimpi_mt "t_finalize")
init_backend-IsBound_example =
    init_backend-IsBound intelmpi mpich_linux_env 12 full_table base mpi_3_0 "send" "t_finalize"
      intelmpi_returns send_declared (refl, refl) t_finalize_declared

waitall_declared : Memᴰ (base, "waitall") main_fields
unfolding main_fields
waitall_declared = declares→Memᴰ base "waitall" main_fields refl

base_enabled : enabled mpich_linux_env.target base ≡ true
unfolding enabled
base_enabled = refl

waitall_exported : mpich_linux_env.dlsym 12 (std_symbol "waitall") ≢ 0
waitall_exported = λ k. ground (arith, k)

wrapped_fields_example :
    Wraps "mpich" mpich_linux_env 12 "waitall"
      (unimpi_vtable_init_mpich mpich_linux_env 12 full_table).1
    × Wraps "intelmpi" mpich_linux_env 12 "waitall"
        (unimpi_vtable_init_intelmpi mpich_linux_env 12 full_table).1
    × Wraps "msmpi" mpich_linux_env 12 "waitall"
        (unimpi_vtable_init_msmpi mpich_linux_env 12 full_table).1
wrapped_fields_example =
    wrapped_fields mpich_linux_env 12 full_table base "waitall" waitall_declared refl base_enabled
      waitall_exported

openmpi_returns : (unimpi_vtable_init_openmpi openmpi_linux_env 12 full_table).0 ≡ ok
unfolding unimpi_vtable_init_openmpi get_openmpi_comm_values get_openmpi_datatype_values
    get_openmpi_op_values
openmpi_returns = refl

openmpi-fields_example :
    let v = (unimpi_vtable_init_openmpi openmpi_linux_env 12 full_table).1 in
    IsBound openmpi_linux_env 12 base "send" 50 (v.unimpi "send")
    × IsBound openmpi_linux_env 12 mpi_3_0 "t_finalize" 60 (v.unimpi_mt "t_finalize")
openmpi-fields_example =
    openmpi-fields openmpi_linux_env 12 full_table base mpi_3_0 "send" "t_finalize" openmpi_returns
      send_declared refl t_finalize_declared
