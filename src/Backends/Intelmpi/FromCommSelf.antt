-- ===== src/Backends/Intelmpi/FromCommSelf.antt =====
-- The statements of `unimpi_vtable_init_intelmpi` in src/backends/intelmpi.c
-- from `UNIMPI_COMM_SELF` on.
use uni_mpi.Base.{[], ◌∷◌}
use uni_mpi.Base.Int.{negsuc, pos}
use uni_mpi.Vtable.{Program, base, assign}

unfoldable pub from_comm_self : Program
from_comm_self =
    (base, assign "UNIMPI_COMM_SELF" (pos 0x44000001))
    ∷ (base, assign "MPI_LOCK_EXCLUSIVE" (pos 234))
    ∷ (base, assign "MPI_LOCK_SHARED" (pos 235))
    ∷ (base, assign "MPI_IN_PLACE" (negsuc 0))
    ∷ (base, assign "UNIMPI_REQUEST_NULL" (pos 0x2c000000))
    ∷ (base, assign "UNIMPI_STATUS_IGNORE" (pos 1))
    ∷ (base, assign "UNIMPI_INFO_NULL" (pos 0x1c000000))
    ∷ (base, assign "UNIMPI_FILE_NULL" (pos 0))
    ∷ (base, assign "UNIMPI_ERRORS_ARE_FATAL" (pos 0x54000000))
    ∷ (base, assign "UNIMPI_ERRORS_RETURN" (pos 0x54000001))
    ∷ (base, assign "UNIMPI_ERRORS_ABORT" (pos 0x54000003))
    ∷ []
