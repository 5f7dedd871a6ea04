-- ===== src/Backends/Msmpi/FromFileGetInfo.antt =====
-- The statements of `unimpi_vtable_init_msmpi` in src/backends/msmpi.c
-- from `file_get_info` on.
use uni_mpi.Base.{[], ◌∷◌}
use uni_mpi.Vtable.{Program, base, bind, native, wrap_if}

unfoldable pub from_file_get_info : Program
from_file_get_info =
    (base, bind "file_get_info" "MPI_File_get_info")
    ∷ (base, bind "file_set_info" "MPI_File_set_info")
    ∷ (base, bind "file_seek" "MPI_File_seek")
    ∷ (base, bind "file_get_position" "MPI_File_get_position")
    ∷ (base, bind "file_get_byte_offset" "MPI_File_get_byte_offset")
    ∷ (base, bind "file_seek_shared" "MPI_File_seek_shared")
    ∷ (base, bind "file_get_position_shared" "MPI_File_get_position_shared")
    ∷ (base, bind "file_get_type_extent" "MPI_File_get_type_extent")
    ∷ (base, bind "file_read" "MPI_File_read")
    ∷ (base, bind "file_read_all" "MPI_File_read_all")
    ∷ (base, bind "file_write" "MPI_File_write")
    ∷ (base, bind "file_write_all" "MPI_File_write_all")
    ∷ (base, bind "file_read_at" "MPI_File_read_at")
    ∷ (base, bind "file_read_at_all" "MPI_File_read_at_all")
    ∷ (base, bind "file_write_at" "MPI_File_write_at")
    ∷ (base, bind "file_write_at_all" "MPI_File_write_at_all")
    ∷ (base, bind "file_read_shared" "MPI_File_read_shared")
    ∷ (base, bind "file_write_shared" "MPI_File_write_shared")
    ∷ (base, bind "file_read_ordered" "MPI_File_read_ordered")
    ∷ (base, bind "file_write_ordered" "MPI_File_write_ordered")
    ∷ (base, bind "file_read_all_begin" "MPI_File_read_all_begin")
    ∷ (base, bind "file_read_all_end" "MPI_File_read_all_end")
    ∷ (base, bind "file_read_at_all_begin" "MPI_File_read_at_all_begin")
    ∷ (base, bind "file_read_at_all_end" "MPI_File_read_at_all_end")
    ∷ (base, bind "file_read_ordered_begin" "MPI_File_read_ordered_begin")
    ∷ (base, bind "file_read_ordered_end" "MPI_File_read_ordered_end")
    ∷ (base, bind "file_write_all_begin" "MPI_File_write_all_begin")
    ∷ (base, bind "file_write_all_end" "MPI_File_write_all_end")
    ∷ (base, bind "file_write_at_all_begin" "MPI_File_write_at_all_begin")
    ∷ (base, bind "file_write_at_all_end" "MPI_File_write_at_all_end")
    ∷ (base, bind "file_write_ordered_begin" "MPI_File_write_ordered_begin")
    ∷ (base, bind "file_write_ordered_end" "MPI_File_write_ordered_end")
    ∷ (base, bind "file_iread" "MPI_File_iread")
    ∷ (base, bind "file_iwrite" "MPI_File_iwrite")
    ∷ (base, bind "file_iread_at" "MPI_File_iread_at")
    ∷ (base, bind "file_iwrite_at" "MPI_File_iwrite_at")
    ∷ (base, bind "file_iread_shared" "MPI_File_iread_shared")
    ∷ (base, bind "file_iwrite_shared" "MPI_File_iwrite_shared")
    ∷ (base, bind "file_set_view" "MPI_File_set_view")
    ∷ (base, bind "file_get_view" "MPI_File_get_view")
    ∷ (base, bind "comm_spawn" "MPI_Comm_spawn")
    ∷ (base, native "msmpi_comm_spawn_multiple" "MPI_Comm_spawn_multiple")
    ∷ (
      base,
      wrap_if "msmpi_comm_spawn_multiple" "comm_spawn_multiple" "msmpi_wrap_comm_spawn_multiple",
    )
    ∷ (base, bind "comm_accept" "MPI_Comm_accept")
    ∷ (base, bind "comm_connect" "MPI_Comm_connect")
    ∷ (base, bind "comm_disconnect" "MPI_Comm_disconnect")
    ∷ (base, bind "comm_join" "MPI_Comm_join")
    ∷ (base, bind "comm_get_parent" "MPI_Comm_get_parent")
    ∷ (base, bind "open_port" "MPI_Open_port")
    ∷ (base, bind "close_port" "MPI_Close_port")
    ∷ (base, bind "publish_name" "MPI_Publish_name")
    ∷ (base, bind "unpublish_name" "MPI_Unpublish_name")
    ∷ (base, bind "lookup_name" "MPI_Lookup_name")
    ∷ (base, bind "info_create" "MPI_Info_create")
    ∷ (base, bind "info_free" "MPI_Info_free")
    ∷ (base, bind "info_set" "MPI_Info_set")
    ∷ (base, bind "info_get" "MPI_Info_get")
    ∷ (base, bind "info_delete" "MPI_Info_delete")
    ∷ (base, bind "info_get_nkeys" "MPI_Info_get_nkeys")
    ∷ (base, bind "info_get_nthkey" "MPI_Info_get_nthkey")
    ∷ []
