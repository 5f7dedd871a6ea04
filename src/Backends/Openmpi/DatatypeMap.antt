-- ===== src/Backends/Openmpi/DatatypeMap.antt =====
-- The table `datatype_map` of `get_openmpi_datatype_values` in src/backends/openmpi.c.
use uni_mpi.Base.{[], ◌∷◌}
use uni_mpi.Vtable.{Program, base, resolve}

unfoldable pub datatype_map : Program
datatype_map =
    (base, resolve "UNIMPI_CHAR" "ompi_mpi_char")
    ∷ (base, resolve "UNIMPI_SIGNED_CHAR" "ompi_mpi_signed_char")
    ∷ (base, resolve "UNIMPI_UNSIGNED_CHAR" "ompi_mpi_unsigned_char")
    ∷ (base, resolve "UNIMPI_BYTE" "ompi_mpi_byte")
    ∷ (base, resolve "UNIMPI_SHORT" "ompi_mpi_short")
    ∷ (base, resolve "UNIMPI_UNSIGNED_SHORT" "ompi_mpi_unsigned_short")
    ∷ (base, resolve "UNIMPI_INT" "ompi_mpi_int")
    ∷ (base, resolve "UNIMPI_UNSIGNED" "ompi_mpi_unsigned")
    ∷ (base, resolve "UNIMPI_LONG" "ompi_mpi_long")
    ∷ (base, resolve "UNIMPI_UNSIGNED_LONG" "ompi_mpi_unsigned_long")
    ∷ (base, resolve "UNIMPI_FLOAT" "ompi_mpi_float")
    ∷ (base, resolve "UNIMPI_DOUBLE" "ompi_mpi_double")
    ∷ (base, resolve "UNIMPI_LONG_DOUBLE" "ompi_mpi_long_double")
    ∷ (base, resolve "UNIMPI_LONG_LONG_INT" "ompi_mpi_long_long_int")
    ∷ (base, resolve "UNIMPI_UNSIGNED_LONG_LONG" "ompi_mpi_unsigned_long_long")
    ∷ []
