-- ===== src/Backends/Openmpi/OpMap.antt =====
-- The table `op_map` of `get_openmpi_op_values` in src/backends/openmpi.c.
use uni_mpi.Base.{[], ◌∷◌}
use uni_mpi.Vtable.{Program, base, resolve}

unfoldable pub op_map : Program
op_map =
    (base, resolve "UNIMPI_MAX" "ompi_mpi_op_max")
    ∷ (base, resolve "UNIMPI_MIN" "ompi_mpi_op_min")
    ∷ (base, resolve "UNIMPI_SUM" "ompi_mpi_op_sum")
    ∷ (base, resolve "UNIMPI_PROD" "ompi_mpi_op_prod")
    ∷ (base, resolve "UNIMPI_LAND" "ompi_mpi_op_land")
    ∷ (base, resolve "UNIMPI_BAND" "ompi_mpi_op_band")
    ∷ (base, resolve "UNIMPI_LOR" "ompi_mpi_op_lor")
    ∷ (base, resolve "UNIMPI_BOR" "ompi_mpi_op_bor")
    ∷ (base, resolve "UNIMPI_LXOR" "ompi_mpi_op_lxor")
    ∷ (base, resolve "UNIMPI_BXOR" "ompi_mpi_op_bxor")
    ∷ (base, resolve "UNIMPI_MINLOC" "ompi_mpi_op_minloc")
    ∷ (base, resolve "UNIMPI_MAXLOC" "ompi_mpi_op_maxloc")
    ∷ []
