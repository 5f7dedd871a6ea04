-- ===== src/Tests/Stale.antt =====
-- Open MPI's predefined datatypes while MPICH is loaded, and giving back what is held.
use mathlib.Core.List.{Memᴰ}
use uni_mpi.Base.{◌++◌, some, ◌≡◌, ◌≢◌, refl, arith, ◌<◌}
use uni_mpi.Base.Text.{codes}
use uni_mpi.Base.Int.{pos}
use uni_mpi.Codes.{openmpi, ok}
use uni_mpi.Init.{unimpi_vtable_init, unimpi_vtable_cleanup}
use uni_mpi.Loader.{unimpi_loader_identify_backend}
use uni_mpi.Globals.Resolved.{openmpi_handles_stay}
use uni_mpi.Vtable.{base, resolve}
use uni_mpi.Backends.Openmpi.{
  unimpi_vtable_init_openmpi, get_openmpi_comm_values, get_openmpi_datatype_values,
  get_openmpi_op_values,
}
use uni_mpi.Backends.Openmpi.DatatypeMap.{datatype_map}
use uni_mpi.Backends.Openmpi.OpMap.{op_map}
use uni_mpi.Lifecycle.State.{Core}
use uni_mpi.Lifecycle.ShutDown.{shut_down, IsDown, shut_down-IsDown}
use uni_mpi.Tests.Demo.{mpich_linux_env, openmpi_linux_env, full_table, in_use, in_use-Inv}

not_openmpi : unimpi_loader_identify_backend mpich_linux_env 12 ≢ openmpi
unfolding unimpi_loader_identify_backend
not_openmpi = λ h. ground (arith, h)

openmpi_filled : (unimpi_vtable_init_openmpi openmpi_linux_env 12 full_table).0 ≡ ok
unfolding unimpi_vtable_init_openmpi get_openmpi_comm_values get_openmpi_datatype_values
    get_openmpi_op_values
openmpi_filled = refl

char_resolved : Memᴰ (base, resolve "UNIMPI_CHAR" "ompi_mpi_char") (datatype_map ++ op_map)
unfolding datatype_map
char_resolved = Memᴰ.head refl

openmpi_handles_stay_example :
    let v = (unimpi_vtable_init_openmpi openmpi_linux_env 12 full_table).1 in
    let v' = unimpi_vtable_cleanup v in
    (v.globals "UNIMPI_CHAR" ≡ pos (openmpi_linux_env.dlsym 12 (codes "ompi_mpi_char")))
    × ((unimpi_vtable_init mpich_linux_env 12 (some (codes "mpich")) v').1.globals "UNIMPI_CHAR"
        ≡ pos (openmpi_linux_env.dlsym 12 (codes "ompi_mpi_char")))
openmpi_handles_stay_example =
    openmpi_handles_stay openmpi_linux_env mpich_linux_env 12 12 (some (codes "mpich")) full_table
      "UNIMPI_CHAR" "ompi_mpi_char" openmpi_filled char_resolved not_openmpi

tools_bound : 0 < 1 → in_use.vt.unimpi_mt "t_finalize" ≢ 0
tools_bound h = λ k. ground (arith, k)

shut_down-IsDown_example : (s : Core) × (shut_down mpich_linux_env 1 in_use ≡ some s) × IsDown s
shut_down-IsDown_example = shut_down-IsDown mpich_linux_env 1 in_use in_use-Inv tools_bound
