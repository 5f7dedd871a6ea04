-- ===== src/Globals/Declared/Callbacks.antt =====
-- The attribute callbacks that include/unimpi_vtable.h declares.
use uni_mpi.Base.{List, String, [], ◌∷◌}
use uni_mpi.Vtable.{Gate, base}

unfoldable pub callback_variables : List (Gate × String)
callback_variables =
    (base, "MPI_COMM_DUP_FN")
    ∷ (base, "MPI_COMM_NULL_COPY_FN")
    ∷ (base, "MPI_COMM_NULL_DELETE_FN")
    ∷ (base, "MPI_TYPE_DUP_FN")
    ∷ (base, "MPI_TYPE_NULL_COPY_FN")
    ∷ (base, "MPI_TYPE_NULL_DELETE_FN")
    ∷ (base, "MPI_WIN_DUP_FN")
    ∷ (base, "MPI_WIN_NULL_COPY_FN")
    ∷ (base, "MPI_WIN_NULL_DELETE_FN")
    ∷ (base, "MPI_DUP_FN")
    ∷ (base, "MPI_NULL_COPY_FN")
    ∷ (base, "MPI_NULL_DELETE_FN")
    ∷ []
