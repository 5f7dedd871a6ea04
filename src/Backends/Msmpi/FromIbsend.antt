-- ===== src/Backends/Msmpi/FromIbsend.antt =====
-- The statements of `unimpi_vtable_init_msmpi` in src/backends/msmpi.c
-- from `ibsend` on.
use uni_mpi.Base.{[], ◌∷◌}
use uni_mpi.Vtable.{Program, base, bind, ignore, native, wrap, wrap_if}

unfoldable pub from_ibsend : Program
from_ibsend =
    (base, bind "ibsend" "MPI_Ibsend")
    ∷ (base, bind "irsend" "MPI_Irsend")
    ∷ (base, bind "issend" "MPI_Issend")
    ∷ (base, bind "request_get_status" "MPI_Request_get_status")
    ∷ (base, bind "grequest_start" "MPI_Grequest_start")
    ∷ (base, bind "grequest_complete" "MPI_Grequest_complete")
    ∷ (base, bind "reduce_local" "MPI_Reduce_local")
    ∷ (base, bind "info_dup" "MPI_Info_dup")
    ∷ (base, bind "info_get_valuelen" "MPI_Info_get_valuelen")
    ∷ (base, bind "type_create_hvector" "MPI_Type_create_hvector")
    ∷ (base, bind "type_create_hindexed" "MPI_Type_create_hindexed")
    ∷ (base, native "msmpi_type_create_struct" "MPI_Type_create_struct")
    ∷ (
      base,
      wrap_if "msmpi_type_create_struct" "type_create_struct" "msmpi_wrap_type_create_struct",
    )
    ∷ (base, native "msmpi_type_struct" "MPI_Type_struct")
    ∷ (base, wrap_if "msmpi_type_struct" "type_struct" "msmpi_wrap_type_struct")
    ∷ (base, ignore "MPI_Type_struct")
    ∷ (base, bind "type_match_size" "MPI_Type_match_size")
    ∷ (base, bind "type_create_f90_integer" "MPI_Type_create_f90_integer")
    ∷ (base, bind "type_create_f90_real" "MPI_Type_create_f90_real")
    ∷ (base, bind "type_create_f90_complex" "MPI_Type_create_f90_complex")
    ∷ (base, bind "get_address" "MPI_Get_address")
    ∷ (base, bind "address" "MPI_Address")
    ∷ (base, bind "init_thread" "MPI_Init_thread")
    ∷ (base, bind "query_thread" "MPI_Query_thread")
    ∷ (base, bind "is_thread_main" "MPI_Is_thread_main")
    ∷ (base, bind "alloc_mem" "MPI_Alloc_mem")
    ∷ (base, bind "free_mem" "MPI_Free_mem")
    ∷ (base, bind "op_create" "MPI_Op_create")
    ∷ (base, bind "op_free" "MPI_Op_free")
    ∷ (base, bind "op_commutative" "MPI_Op_commutative")
    ∷ (base, bind "status_set_elements" "MPI_Status_set_elements")
    ∷ (base, bind "status_set_cancelled" "MPI_Status_set_cancelled")
    ∷ (base, bind "status_f2c" "MPI_Status_f2c")
    ∷ (base, bind "status_c2f" "MPI_Status_c2f")
    ∷ (base, wrap "status_get_source" "status_legacy_get_source")
    ∷ (base, wrap "status_get_tag" "status_legacy_get_tag")
    ∷ (base, wrap "status_get_error" "status_legacy_get_error")
    ∷ []
