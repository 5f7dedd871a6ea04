-- ===== src/Backends/Msmpi/FromAintAdd.antt =====
-- The statements of `unimpi_vtable_init_msmpi` in src/backends/msmpi.c
-- from `aint_add` on.
use uni_mpi.Base.{[], ◌∷◌}
use uni_mpi.Vtable.{Program, mpi_3_1, bind, fallback}

unfoldable pub from_aint_add : Program
from_aint_add =
    (mpi_3_1, bind "aint_add" "MPI_Aint_add")
    ∷ (mpi_3_1, fallback "aint_add" "unimpi_aint_add")
    ∷ (mpi_3_1, bind "aint_diff" "MPI_Aint_diff")
    ∷ (mpi_3_1, fallback "aint_diff" "unimpi_aint_diff")
    ∷ (mpi_3_1, bind "file_iread_all" "MPI_File_iread_all")
    ∷ (mpi_3_1, bind "file_iwrite_all" "MPI_File_iwrite_all")
    ∷ (mpi_3_1, bind "file_iread_at_all" "MPI_File_iread_at_all")
    ∷ (mpi_3_1, bind "file_iwrite_at_all" "MPI_File_iwrite_at_all")
    ∷ (mpi_3_1, bind "comm_idup" "MPI_Comm_idup")
    ∷ []
