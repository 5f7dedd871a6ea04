-- ===== src/Fields/FromKeyvalFree.antt =====
-- The fields of `unimpi_vtable_t` in include/unimpi_vtable.h from `keyval_free` on.
use uni_mpi.Base.{String, List, [], ◌∷◌}
use uni_mpi.Vtable.{Gate, base, mpi_3_0}

unfoldable pub fields_from_keyval_free : List (Gate × String)
fields_from_keyval_free =
    (base, "keyval_free")
    ∷ (base, "register_datarep")
    ∷ (base, "win_get_group")
    ∷ (base, "win_call_errhandler")
    ∷ (base, "file_create_errhandler")
    ∷ (base, "file_set_atomicity")
    ∷ (base, "file_get_atomicity")
    ∷ (base, "file_sync")
    ∷ (base, "file_call_errhandler")
    ∷ (base, "file_set_errhandler")
    ∷ (base, "file_get_errhandler")
    ∷ (base, "add_error_class")
    ∷ (base, "add_error_code")
    ∷ (base, "add_error_string")
    ∷ (base, "error_class")
    ∷ (base, "error_string")
    ∷ (base, "pcontrol")
    ∷ (base, "attr_put")
    ∷ (base, "attr_get")
    ∷ (base, "attr_delete")
    ∷ (base, "type_commit")
    ∷ (base, "type_free")
    ∷ (base, "type_contiguous")
    ∷ (base, "type_vector")
    ∷ (base, "type_hvector")
    ∷ (base, "type_indexed")
    ∷ (base, "type_hindexed")
    ∷ (base, "type_create_indexed_block")
    ∷ (base, "type_create_subarray")
    ∷ (base, "type_create_darray")
    ∷ (base, "type_dup")
    ∷ (base, "type_create_resized")
    ∷ (base, "type_create_hvector")
    ∷ (base, "type_create_hindexed")
    ∷ (base, "type_create_struct")
    ∷ (base, "type_struct")
    ∷ (base, "type_match_size")
    ∷ (base, "type_create_f90_integer")
    ∷ (base, "type_create_f90_real")
    ∷ (base, "type_create_f90_complex")
    ∷ (base, "get_address")
    ∷ (base, "address")
    ∷ (base, "type_get_extent")
    ∷ (base, "type_get_true_extent")
    ∷ (base, "type_get_envelope")
    ∷ (base, "type_get_contents")
    ∷ (base, "type_get_size")
    ∷ (base, "type_size")
    ∷ (mpi_3_0, "type_size_x")
    ∷ (mpi_3_0, "type_get_extent_x")
    ∷ (mpi_3_0, "type_get_true_extent_x")
    ∷ (mpi_3_0, "type_create_hindexed_block")
    ∷ (mpi_3_0, "get_elements_x")
    ∷ (mpi_3_0, "status_set_elements_x")
    ∷ (base, "type_get_name")
    ∷ (base, "type_set_name")
    ∷ (base, "type_extent")
    ∷ (base, "type_lb")
    ∷ (base, "type_ub")
    ∷ (base, "pack")
    ∷ (base, "unpack")
    ∷ (base, "pack_size")
    ∷ (base, "pack_external")
    ∷ (base, "unpack_external")
    ∷ (base, "pack_external_size")
    ∷ []
