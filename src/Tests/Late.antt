-- ===== src/Tests/Late.antt =====
-- Calls while MPI is active and after it has been finalized.
use uni_mpi.Base.{true, none, some, ◌≡◌, refl}
use uni_mpi.Base.Text.{codes}
use uni_mpi.Codes.{err_finalized, thread_multiple}
use uni_mpi.Lifecycle.State.{done, active, finalized}
use uni_mpi.Lifecycle.Init.{unimpi_init, unimpi_init_thread, unimpi_init_with, unimpi_finalize}
use uni_mpi.Lifecycle.Mpit.{unimpi_mpit_init_thread, unimpi_mpit_finalize}
use uni_mpi.Lifecycle.Forever.{Leaves, finalized_forever}
use uni_mpi.Lifecycle.Order.{Follows, calls_move}
use uni_mpi.Tests.Demo.{mpich_linux_env, in_use, in_use-Inv, after_use, after_use-Inv}

finalized_forever_example :
    (unimpi_init mpich_linux_env after_use ≡ done err_finalized none after_use)
    × (unimpi_finalize mpich_linux_env after_use ≡ done err_finalized none after_use)
    × Leaves finalized (unimpi_init_thread mpich_linux_env thread_multiple true after_use)
    × Leaves finalized (unimpi_init_with mpich_linux_env (some (codes "mpich")) after_use)
    × Leaves finalized (unimpi_mpit_init_thread mpich_linux_env thread_multiple after_use)
    × Leaves finalized (unimpi_mpit_finalize mpich_linux_env after_use)
finalized_forever_example =
    finalized_forever mpich_linux_env thread_multiple true (some (codes "mpich")) 1 after_use
      after_use-Inv refl

calls_move_example :
    Follows active (unimpi_init mpich_linux_env in_use)
    × Follows active (unimpi_init_thread mpich_linux_env thread_multiple true in_use)
    × Follows active (unimpi_init_with mpich_linux_env (some (codes "mpich")) in_use)
    × Follows active (unimpi_finalize mpich_linux_env in_use)
    × Follows active (unimpi_mpit_init_thread mpich_linux_env thread_multiple in_use)
    × Follows active (unimpi_mpit_finalize mpich_linux_env in_use)
calls_move_example =
    calls_move mpich_linux_env thread_multiple true (some (codes "mpich")) 1 in_use in_use-Inv
