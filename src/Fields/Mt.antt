-- ===== src/Fields/Mt.antt =====
-- The fields of `unimpi_mt_vtable_t` in include/unimpi_mt.h.
use uni_mpi.Base.{String, List, [], ◌∷◌}
use uni_mpi.Vtable.{Gate, mpi_3_0, mpi_3_1}

unfoldable pub mt_fields : List (Gate × String)
mt_fields =
    (mpi_3_0, "t_init_thread")
    ∷ (mpi_3_0, "t_finalize")
    ∷ (mpi_3_0, "t_cvar_get_num")
    ∷ (mpi_3_0, "t_cvar_get_info")
    ∷ (mpi_3_0, "t_cvar_handle_alloc")
    ∷ (mpi_3_0, "t_cvar_handle_free")
    ∷ (mpi_3_0, "t_cvar_read")
    ∷ (mpi_3_0, "t_cvar_read_index")
    ∷ (mpi_3_0, "t_cvar_write")
    ∷ (mpi_3_0, "t_cvar_write_index")
    ∷ (mpi_3_0, "t_pvar_get_num")
    ∷ (mpi_3_0, "t_pvar_get_info")
    ∷ (mpi_3_0, "t_pvar_session_create")
    ∷ (mpi_3_0, "t_pvar_session_free")
    ∷ (mpi_3_0, "t_pvar_handle_alloc")
    ∷ (mpi_3_0, "t_pvar_handle_free")
    ∷ (mpi_3_0, "t_pvar_start")
    ∷ (mpi_3_0, "t_pvar_stop")
    ∷ (mpi_3_0, "t_pvar_read")
    ∷ (mpi_3_0, "t_pvar_write")
    ∷ (mpi_3_0, "t_pvar_readreset")
    ∷ (mpi_3_0, "t_pvar_reset")
    ∷ (mpi_3_0, "t_pvar_aggregate")
    ∷ (mpi_3_0, "t_category_get_num")
    ∷ (mpi_3_0, "t_category_get_info")
    ∷ (mpi_3_0, "t_category_get_cvars")
    ∷ (mpi_3_0, "t_category_get_pvars")
    ∷ (mpi_3_0, "t_category_get_categories")
    ∷ (mpi_3_0, "t_category_changed")
    ∷ (mpi_3_0, "t_enum_get_info")
    ∷ (mpi_3_0, "t_enum_get_item")
    ∷ (mpi_3_1, "t_cvar_get_index")
    ∷ (mpi_3_1, "t_pvar_get_index")
    ∷ (mpi_3_1, "t_category_get_index")
    ∷ []
