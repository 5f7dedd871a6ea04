-- ===== src/Backends/Openmpi/FromIbsend.antt =====
-- The statements of `unimpi_vtable_init_openmpi` in src/backends/openmpi.c
-- from `ibsend` on.
use uni_mpi.Base.{[], ◌∷◌}
use uni_mpi.Vtable.{Program, base, bind, wrap}

unfoldable pub from_ibsend : Program
from_ibsend =
    (base, bind "ibsend" "MPI_Ibsend")
    ∷ (base, bind "irsend" "MPI_Irsend")
    ∷ (base, bind "issend" "MPI_Issend")
    ∷ (base, bind "request_get_status" "MPI_Request_get_status")
    ∷ (base, bind "grequest_start" "MPI_Grequest_start")
    ∷ (base, bind "grequest_complete" "MPI_Grequest_complete")
    ∷ (base, bind "reduce_local" "MPI_Reduce_local")
    ∷ (base, bind "info_dup" "MPI_Info_dup")
    ∷ (base, bind "info_get_valuelen" "MPI_Info_get_valuelen")
    ∷ (base, bind "type_create_hvector" "MPI_Type_create_hvector")
    ∷ (base, bind "type_create_hindexed" "MPI_Type_create_hindexed")
    ∷ (base, bind "type_create_struct" "MPI_Type_create_struct")
    ∷ (base, bind "type_struct" "MPI_Type_struct")
    ∷ (base, bind "type_match_size" "MPI_Type_match_size")
    ∷ (base, bind "type_create_f90_integer" "MPI_Type_create_f90_integer")
    ∷ (base, bind "type_create_f90_real" "MPI_Type_create_f90_real")
    ∷ (base, bind "type_create_f90_complex" "MPI_Type_create_f90_complex")
    ∷ (base, bind "get_address" "MPI_Get_address")
    ∷ (base, bind "address" "MPI_Address")
    ∷ (base, bind "init_thread" "MPI_Init_thread")
    ∷ (base, bind "query_thread" "MPI_Query_thread")
    ∷ (base, bind "is_thread_main" "MPI_Is_thread_main")
    ∷ (base, bind "alloc_mem" "MPI_Alloc_mem")
    ∷ (base, bind "free_mem" "MPI_Free_mem")
    ∷ (base, bind "alloc_mem" "MPI_Alloc_mem")
    ∷ (base, bind "free_mem" "MPI_Free_mem")
    ∷ (base, bind "op_create" "MPI_Op_create")
    ∷ (base, bind "op_free" "MPI_Op_free")
    ∷ (base, bind "op_commutative" "MPI_Op_commutative")
    ∷ (base, bind "status_set_elements" "MPI_Status_set_elements")
    ∷ (base, bind "status_set_cancelled" "MPI_Status_set_cancelled")
    ∷ (base, bind "status_f2c" "MPI_Status_f2c")
    ∷ (base, bind "status_c2f" "MPI_Status_c2f")
    ∷ (base, wrap "status_get_source" "status_openmpi_get_source")
    ∷ (base, wrap "status_get_tag" "status_openmpi_get_tag")
    ∷ (base, wrap "status_get_error" "status_openmpi_get_error")
    ∷ (base, bind "errhandler_create" "MPI_Errhandler_create")
    ∷ (base, bind "errhandler_free" "MPI_Errhandler_free")
    ∷ (base, bind "errhandler_set" "MPI_Errhandler_set")
    ∷ (base, bind "errhandler_get" "MPI_Errhandler_get")
    ∷ (base, bind "comm_get_errhandler" "MPI_Comm_get_errhandler")
    ∷ (base, bind "comm_set_errhandler" "MPI_Comm_set_errhandler")
    ∷ (base, bind "win_get_errhandler" "MPI_Win_get_errhandler")
    ∷ (base, bind "win_set_errhandler" "MPI_Win_set_errhandler")
    ∷ (base, bind "comm_create_errhandler" "MPI_Comm_create_errhandler")
    ∷ (base, bind "comm_call_errhandler" "MPI_Comm_call_errhandler")
    ∷ (base, bind "win_create_errhandler" "MPI_Win_create_errhandler")
    ∷ (base, bind "win_create_keyval" "MPI_Win_create_keyval")
    ∷ (base, bind "win_free_keyval" "MPI_Win_free_keyval")
    ∷ (base, bind "win_set_attr" "MPI_Win_set_attr")
    ∷ (base, bind "win_get_attr" "MPI_Win_get_attr")
    ∷ (base, bind "win_delete_attr" "MPI_Win_delete_attr")
    ∷ (base, bind "comm_create_keyval" "MPI_Comm_create_keyval")
    ∷ (base, bind "comm_free_keyval" "MPI_Comm_free_keyval")
    ∷ (base, bind "comm_set_attr" "MPI_Comm_set_attr")
    ∷ (base, bind "comm_get_attr" "MPI_Comm_get_attr")
    ∷ (base, bind "comm_delete_attr" "MPI_Comm_delete_attr")
    ∷ (base, bind "type_create_keyval" "MPI_Type_create_keyval")
    ∷ (base, bind "type_free_keyval" "MPI_Type_free_keyval")
    ∷ (base, bind "type_set_attr" "MPI_Type_set_attr")
    ∷ (base, bind "type_get_attr" "MPI_Type_get_attr")
    ∷ (base, bind "type_delete_attr" "MPI_Type_delete_attr")
    ∷ (base, bind "keyval_create" "MPI_Keyval_create")
    ∷ (base, bind "keyval_free" "MPI_Keyval_free")
    ∷ (base, bind "register_datarep" "MPI_Register_datarep")
    ∷ []
