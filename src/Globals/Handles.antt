-- ===== src/Globals/Handles.antt =====
-- The predefined handles of src/vtable.c, with the values they start with.
use uni_mpi.Base.{List, String, [], ◌∷◌}
use uni_mpi.Base.Int.{ℤ, pos}

unfoldable pub handle_globals : List (String × ℤ)
handle_globals =
    ("UNIMPI_COMM_WORLD", (pos 0))
    ∷ ("UNIMPI_COMM_SELF", (pos 0))
    ∷ ("UNIMPI_INFO_NULL", (pos 0))
    ∷ ("UNIMPI_REQUEST_NULL", (pos 0))
    ∷ ("UNIMPI_STATUS_IGNORE", (pos 0))
    ∷ ("UNIMPI_FILE_NULL", (pos 0))
    ∷ ("UNIMPI_ERRORS_ARE_FATAL", (pos 0))
    ∷ ("UNIMPI_ERRORS_RETURN", (pos 0))
    ∷ ("UNIMPI_ERRORS_ABORT", (pos 0))
    ∷ ("UNIMPI_CART", (pos 0))
    ∷ ("UNIMPI_GRAPH", (pos 0))
    ∷ ("UNIMPI_DIST_GRAPH", (pos 0))
    ∷ ("UNIMPI_CHAR", (pos 0x4c000101))
    ∷ ("UNIMPI_SIGNED_CHAR", (pos 0x4c000118))
    ∷ ("UNIMPI_UNSIGNED_CHAR", (pos 0x4c000102))
    ∷ ("UNIMPI_BYTE", (pos 0x4c00010d))
    ∷ ("UNIMPI_SHORT", (pos 0x4c000203))
    ∷ ("UNIMPI_UNSIGNED_SHORT", (pos 0x4c000204))
    ∷ ("UNIMPI_INT", (pos 0x4c000405))
    ∷ ("UNIMPI_UNSIGNED", (pos 0x4c000406))
    ∷ ("UNIMPI_LONG", (pos 0x4c000807))
    ∷ ("UNIMPI_UNSIGNED_LONG", (pos 0x4c000808))
    ∷ ("UNIMPI_FLOAT", (pos 0x4c00040a))
    ∷ ("UNIMPI_DOUBLE", (pos 0x4c00080b))
    ∷ ("UNIMPI_LONG_DOUBLE", (pos 0x4c00100c))
    ∷ ("UNIMPI_LONG_LONG_INT", (pos 0x4c000809))
    ∷ ("UNIMPI_LONG_LONG", (pos 0x4c000809))
    ∷ ("UNIMPI_UNSIGNED_LONG_LONG", (pos 0x4c000819))
    ∷ ("UNIMPI_MAX", (pos 0x58000001))
    ∷ ("UNIMPI_MIN", (pos 0x58000002))
    ∷ ("UNIMPI_SUM", (pos 0x58000003))
    ∷ ("UNIMPI_PROD", (pos 0x58000004))
    ∷ ("UNIMPI_LAND", (pos 0x58000005))
    ∷ ("UNIMPI_BAND", (pos 0x58000006))
    ∷ ("UNIMPI_LOR", (pos 0x58000007))
    ∷ ("UNIMPI_BOR", (pos 0x58000008))
    ∷ ("UNIMPI_LXOR", (pos 0x58000009))
    ∷ ("UNIMPI_BXOR", (pos 0x5800000a))
    ∷ ("UNIMPI_MINLOC", (pos 0x5800000b))
    ∷ ("UNIMPI_MAXLOC", (pos 0x5800000c))
    ∷ []
