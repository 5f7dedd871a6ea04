-- ===== src/Backends/Openmpi/FromCommDupFn.antt =====
-- The statements of `unimpi_vtable_init_openmpi` in src/backends/openmpi.c
-- from `MPI_COMM_DUP_FN` on.
use uni_mpi.Base.{[], ◌∷◌}
use uni_mpi.Vtable.{Program, base, bind, resolve}

unfoldable pub from_comm_dup_fn : Program
from_comm_dup_fn =
    (base, resolve "MPI_COMM_DUP_FN" "OMPI_C_MPI_COMM_DUP_FN")
    ∷ (base, resolve "MPI_COMM_NULL_COPY_FN" "OMPI_C_MPI_COMM_NULL_COPY_FN")
    ∷ (base, resolve "MPI_COMM_NULL_DELETE_FN" "OMPI_C_MPI_COMM_NULL_DELETE_FN")
    ∷ (base, resolve "MPI_TYPE_DUP_FN" "OMPI_C_MPI_TYPE_DUP_FN")
    ∷ (base, resolve "MPI_TYPE_NULL_COPY_FN" "OMPI_C_MPI_TYPE_NULL_COPY_FN")
    ∷ (base, resolve "MPI_TYPE_NULL_DELETE_FN" "OMPI_C_MPI_TYPE_NULL_DELETE_FN")
    ∷ (base, resolve "MPI_WIN_DUP_FN" "OMPI_C_MPI_WIN_DUP_FN")
    ∷ (base, resolve "MPI_WIN_NULL_COPY_FN" "OMPI_C_MPI_WIN_NULL_COPY_FN")
    ∷ (base, resolve "MPI_WIN_NULL_DELETE_FN" "OMPI_C_MPI_WIN_NULL_DELETE_FN")
    ∷ (base, resolve "MPI_DUP_FN" "OMPI_C_MPI_DUP_FN")
    ∷ (base, resolve "MPI_NULL_COPY_FN" "OMPI_C_MPI_NULL_COPY_FN")
    ∷ (base, resolve "MPI_NULL_DELETE_FN" "OMPI_C_MPI_NULL_DELETE_FN")
    ∷ (base, bind "win_get_group" "MPI_Win_get_group")
    ∷ (base, bind "win_call_errhandler" "MPI_Win_call_errhandler")
    ∷ (base, bind "file_create_errhandler" "MPI_File_create_errhandler")
    ∷ (base, bind "file_set_atomicity" "MPI_File_set_atomicity")
    ∷ (base, bind "file_get_atomicity" "MPI_File_get_atomicity")
    ∷ (base, bind "file_sync" "MPI_File_sync")
    ∷ (base, bind "file_call_errhandler" "MPI_File_call_errhandler")
    ∷ (base, bind "file_set_errhandler" "MPI_File_set_errhandler")
    ∷ (base, bind "file_get_errhandler" "MPI_File_get_errhandler")
    ∷ (base, bind "add_error_class" "MPI_Add_error_class")
    ∷ (base, bind "add_error_code" "MPI_Add_error_code")
    ∷ (base, bind "add_error_string" "MPI_Add_error_string")
    ∷ (base, bind "error_class" "MPI_Error_class")
    ∷ (base, bind "error_string" "MPI_Error_string")
    ∷ (base, bind "pcontrol" "MPI_Pcontrol")
    ∷ (base, bind "attr_put" "MPI_Attr_put")
    ∷ (base, bind "attr_get" "MPI_Attr_get")
    ∷ (base, bind "attr_delete" "MPI_Attr_delete")
    ∷ []
