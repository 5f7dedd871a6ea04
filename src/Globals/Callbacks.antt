-- ===== src/Globals/Callbacks.antt =====
-- The predefined attribute callbacks of src/predef_attr.c, with the values they start with.
use uni_mpi.Base.{List, String, [], ◌∷◌}
use uni_mpi.Base.Int.{ℤ, pos}

unfoldable pub callback_globals : List (String × ℤ)
callback_globals =
    ("MPI_COMM_DUP_FN", (pos 0))
    ∷ ("MPI_COMM_NULL_COPY_FN", (pos 0))
    ∷ ("MPI_COMM_NULL_DELETE_FN", (pos 0))
    ∷ ("MPI_TYPE_DUP_FN", (pos 0))
    ∷ ("MPI_TYPE_NULL_COPY_FN", (pos 0))
    ∷ ("MPI_TYPE_NULL_DELETE_FN", (pos 0))
    ∷ ("MPI_WIN_DUP_FN", (pos 0))
    ∷ ("MPI_WIN_NULL_COPY_FN", (pos 0))
    ∷ ("MPI_WIN_NULL_DELETE_FN", (pos 0))
    ∷ ("MPI_DUP_FN", (pos 0))
    ∷ ("MPI_NULL_COPY_FN", (pos 0))
    ∷ ("MPI_NULL_DELETE_FN", (pos 0))
    ∷ []
