-- ===== src/Globals/Declared/Handles.antt =====
-- The predefined handles and constants that include/unimpi_vtable.h declares.
use uni_mpi.Base.{List, String, [], ◌∷◌}
use uni_mpi.Vtable.{Gate, base}

unfoldable pub handle_variables : List (Gate × String)
handle_variables =
    (base, "UNIMPI_MAX")
    ∷ (base, "UNIMPI_MIN")
    ∷ (base, "UNIMPI_SUM")
    ∷ (base, "UNIMPI_PROD")
    ∷ (base, "UNIMPI_LAND")
    ∷ (base, "UNIMPI_BAND")
    ∷ (base, "UNIMPI_LOR")
    ∷ (base, "UNIMPI_BOR")
    ∷ (base, "UNIMPI_LXOR")
    ∷ (base, "UNIMPI_BXOR")
    ∷ (base, "UNIMPI_MINLOC")
    ∷ (base, "UNIMPI_MAXLOC")
    ∷ (base, "UNIMPI_COMM_WORLD")
    ∷ (base, "UNIMPI_COMM_SELF")
    ∷ (base, "UNIMPI_FILE_NULL")
    ∷ (base, "UNIMPI_ERRORS_ARE_FATAL")
    ∷ (base, "UNIMPI_ERRORS_RETURN")
    ∷ (base, "UNIMPI_ERRORS_ABORT")
    ∷ (base, "UNIMPI_INFO_NULL")
    ∷ (base, "UNIMPI_REQUEST_NULL")
    ∷ (base, "UNIMPI_STATUS_IGNORE")
    ∷ (base, "UNIMPI_CART")
    ∷ (base, "UNIMPI_GRAPH")
    ∷ (base, "UNIMPI_DIST_GRAPH")
    ∷ (base, "UNIMPI_CHAR")
    ∷ (base, "UNIMPI_SIGNED_CHAR")
    ∷ (base, "UNIMPI_UNSIGNED_CHAR")
    ∷ (base, "UNIMPI_BYTE")
    ∷ (base, "UNIMPI_SHORT")
    ∷ (base, "UNIMPI_UNSIGNED_SHORT")
    ∷ (base, "UNIMPI_INT")
    ∷ (base, "UNIMPI_UNSIGNED")
    ∷ (base, "UNIMPI_LONG")
    ∷ (base, "UNIMPI_UNSIGNED_LONG")
    ∷ (base, "UNIMPI_FLOAT")
    ∷ (base, "UNIMPI_DOUBLE")
    ∷ (base, "UNIMPI_LONG_DOUBLE")
    ∷ (base, "UNIMPI_LONG_LONG_INT")
    ∷ (base, "UNIMPI_LONG_LONG")
    ∷ (base, "UNIMPI_UNSIGNED_LONG_LONG")
    ∷ (base, "UNIMPI_MAX")
    ∷ (base, "UNIMPI_MIN")
    ∷ (base, "UNIMPI_SUM")
    ∷ (base, "UNIMPI_PROD")
    ∷ (base, "UNIMPI_LAND")
    ∷ (base, "UNIMPI_BAND")
    ∷ (base, "UNIMPI_LOR")
    ∷ (base, "UNIMPI_BOR")
    ∷ (base, "UNIMPI_LXOR")
    ∷ (base, "UNIMPI_BXOR")
    ∷ (base, "UNIMPI_MINLOC")
    ∷ (base, "UNIMPI_MAXLOC")
    ∷ []
