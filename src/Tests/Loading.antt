-- ===== src/Tests/Loading.antt =====
-- Choosing, loading and recognising a library.
use uni_mpi.Base.{true, some, [], length, take, map, ◌++◌, ◌≡◌, ◌≢◌, ◌≤◌, refl, arith, ◌↔◌, ◌⊎◌}
use uni_mpi.Base.Text.{Text, codes, to_lower}
use uni_mpi.Codes.{mpich, ok, err_abi_mismatch}
use uni_mpi.Platform.{linux}
use uni_mpi.Loader.{
  unimpi_loader_detect_backend, unimpi_loader_load, unimpi_loader_identify_backend,
  unimpi_loader_check_platform_support, path_names_standard_abi,
}
use uni_mpi.Loader.Choice.{Loads, detect_total, load_outcome}
use uni_mpi.Loader.Identity.{Recognised, identify_sound, Supported}
use uni_mpi.Loader.Abi.{Occurs, names_standard_abi_iff, standard_abi_truncates}
use uni_mpi.Init.{unimpi_vtable_init, unimpi_vtable_validate_core, init_backend}
use uni_mpi.Init.Core.{init, init_sound}
use uni_mpi.Vtable.Binding.{std_symbol}
use uni_mpi.Backends.Mpich.{unimpi_vtable_init_mpich}
use uni_mpi.Lifecycle.State.{save_backend_identity, clear_backend_identity}
use uni_mpi.Lifecycle.Loading.{fill}
use uni_mpi.Lifecycle.PathCheck.{fill_abi_unchecked}
use uni_mpi.Tests.Demo.{mpich_linux_env, full_table, with_tools}

detect_total_example :
    (path : Text) × (unimpi_loader_detect_backend mpich_linux_env true ≡ (ok, some path))
    × (path ≢ [])
detect_total_example = detect_total mpich_linux_env

load_outcome_example :
    Loads mpich_linux_env
      (some (codes "libmpich.so"))
      true
      (unimpi_loader_load mpich_linux_env (some (codes "libmpich.so")) true)
load_outcome_example = load_outcome mpich_linux_env (some (codes "libmpich.so")) true

identify_sound_example :
    Recognised mpich_linux_env 11 (unimpi_loader_identify_backend mpich_linux_env 11)
identify_sound_example = identify_sound mpich_linux_env 11

names_standard_abi_iff_example :
    let lowered = map to_lower (take 255 (codes "/usr/lib/libMPI_ABI.so")) in
    (path_names_standard_abi (some (codes "/usr/lib/libMPI_ABI.so")) ≡ true)
    ↔ (Occurs (codes "mpi_abi") lowered ⊎ Occurs (codes "mpi-abi") lowered)
names_standard_abi_iff_example = names_standard_abi_iff (codes "/usr/lib/libMPI_ABI.so")

abbrev quarter : Text
quarter = codes "/opt/software/a-very-long-directory-name/that-holds/all/libraries"

abbrev long_path : Text
long_path = quarter ++ (quarter ++ (quarter ++ quarter))

long_path_long : 255 ≤ length long_path
long_path_long = ground arith

standard_abi_truncates_example :
    path_names_standard_abi (some (long_path ++ codes "/libmpi_abi.so"))
    ≡ path_names_standard_abi (some long_path)
standard_abi_truncates_example =
    standard_abi_truncates long_path (codes "/libmpi_abi.so") long_path_long

mpich_filled : (unimpi_vtable_init mpich_linux_env 12 (some (codes "mpich")) full_table).0 ≡ ok
unfolding unimpi_vtable_init unimpi_vtable_validate_core init_backend unimpi_vtable_init_mpich
    unimpi_loader_identify_backend unimpi_loader_check_platform_support path_names_standard_abi
mpich_filled = refl

init_sound_example :
    let v = (unimpi_vtable_init mpich_linux_env 12 (some (codes "mpich")) full_table).1 in
    Supported linux (unimpi_loader_identify_backend mpich_linux_env 12)
    × (v.unimpi "init" ≡ mpich_linux_env.dlsym 12 (std_symbol "init"))
    × (v.unimpi "init" ≢ 0)
init_sound_example =
    init_sound mpich_linux_env 12 (some (codes "mpich")) full_table "init" mpich_filled init

-- MPICH was loaded last, from a library for the standard ABI.
fill_abi_unchecked_example :
    ((fill mpich_linux_env
        (save_backend_identity mpich (some (codes "libmpi_abi.so")) with_tools)).0
      ≢ err_abi_mismatch)
    × ((fill mpich_linux_env (clear_backend_identity with_tools)).0 ≢ err_abi_mismatch)
fill_abi_unchecked_example =
    fill_abi_unchecked mpich_linux_env mpich (some (codes "libmpi_abi.so")) with_tools
