-- ===== src/Backends/Intelmpi/FromErrhandlerCreate.antt =====
-- The statements of `unimpi_vtable_init_intelmpi` in src/backends/intelmpi.c
-- from `errhandler_create` on.
use uni_mpi.Base.{[], ◌∷◌}
use uni_mpi.Vtable.{Program, base, bind, resolve}

unfoldable pub from_errhandler_create : Program
from_errhandler_create =
    (base, bind "errhandler_create" "MPI_Errhandler_create")
    ∷ (base, bind "errhandler_free" "MPI_Errhandler_free")
    ∷ (base, bind "errhandler_set" "MPI_Errhandler_set")
    ∷ (base, bind "errhandler_get" "MPI_Errhandler_get")
    ∷ (base, bind "comm_get_errhandler" "MPI_Comm_get_errhandler")
    ∷ (base, bind "comm_set_errhandler" "MPI_Comm_set_errhandler")
    ∷ (base, bind "win_get_errhandler" "MPI_Win_get_errhandler")
    ∷ (base, bind "win_set_errhandler" "MPI_Win_set_errhandler")
    ∷ (base, bind "comm_create_errhandler" "MPI_Comm_create_errhandler")
    ∷ (base, bind "comm_call_errhandler" "MPI_Comm_call_errhandler")
    ∷ (base, bind "win_create_errhandler" "MPI_Win_create_errhandler")
    ∷ (base, bind "win_create_keyval" "MPI_Win_create_keyval")
    ∷ (base, bind "win_free_keyval" "MPI_Win_free_keyval")
    ∷ (base, bind "win_set_attr" "MPI_Win_set_attr")
    ∷ (base, bind "win_get_attr" "MPI_Win_get_attr")
    ∷ (base, bind "win_delete_attr" "MPI_Win_delete_attr")
    ∷ (base, bind "comm_create_keyval" "MPI_Comm_create_keyval")
    ∷ (base, bind "comm_free_keyval" "MPI_Comm_free_keyval")
    ∷ (base, bind "comm_set_attr" "MPI_Comm_set_attr")
    ∷ (base, bind "comm_get_attr" "MPI_Comm_get_attr")
    ∷ (base, bind "comm_delete_attr" "MPI_Comm_delete_attr")
    ∷ (base, bind "type_create_keyval" "MPI_Type_create_keyval")
    ∷ (base, bind "type_free_keyval" "MPI_Type_free_keyval")
    ∷ (base, bind "type_set_attr" "MPI_Type_set_attr")
    ∷ (base, bind "type_get_attr" "MPI_Type_get_attr")
    ∷ (base, bind "type_delete_attr" "MPI_Type_delete_attr")
    ∷ (base, bind "keyval_create" "MPI_Keyval_create")
    ∷ (base, bind "keyval_free" "MPI_Keyval_free")
    ∷ (base, bind "register_datarep" "MPI_Register_datarep")
    ∷ (base, resolve "MPI_COMM_DUP_FN" "MPIR_Dup_fn")
    ∷ (base, resolve "MPI_TYPE_DUP_FN" "MPIR_Dup_fn")
    ∷ (base, resolve "MPI_WIN_DUP_FN" "MPIR_Dup_fn")
    ∷ (base, resolve "MPI_DUP_FN" "MPIR_Dup_fn")
    ∷ (base, bind "win_get_group" "MPI_Win_get_group")
    ∷ (base, bind "win_call_errhandler" "MPI_Win_call_errhandler")
    ∷ (base, bind "file_create_errhandler" "MPI_File_create_errhandler")
    ∷ (base, bind "file_set_atomicity" "MPI_File_set_atomicity")
    ∷ (base, bind "file_get_atomicity" "MPI_File_get_atomicity")
    ∷ (base, bind "file_sync" "MPI_File_sync")
    ∷ (base, bind "file_call_errhandler" "MPI_File_call_errhandler")
    ∷ (base, bind "file_set_errhandler" "MPI_File_set_errhandler")
    ∷ (base, bind "file_get_errhandler" "MPI_File_get_errhandler")
    ∷ (base, bind "add_error_class" "MPI_Add_error_class")
    ∷ (base, bind "add_error_code" "MPI_Add_error_code")
    ∷ (base, bind "add_error_string" "MPI_Add_error_string")
    ∷ (base, bind "error_class" "MPI_Error_class")
    ∷ (base, bind "error_string" "MPI_Error_string")
    ∷ (base, bind "pcontrol" "MPI_Pcontrol")
    ∷ (base, bind "attr_put" "MPI_Attr_put")
    ∷ (base, bind "attr_get" "MPI_Attr_get")
    ∷ (base, bind "attr_delete" "MPI_Attr_delete")
    ∷ []
