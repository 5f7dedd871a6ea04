-- ===== src/Names.antt =====
-- include/unimpi_std_macros.h: the standard names, and what each stands for.
pub mod Macro
mod FromInfoNull
mod FromTestCancelled
mod FromCommSplitType
mod FromFileWriteShared
mod FromTypeGetExtentX
pub mod Parity
pub mod Calls
use FromInfoNull.{macros_from_info_null}
use FromTestCancelled.{macros_from_test_cancelled}
use FromCommSplitType.{macros_from_comm_split_type}
use FromFileWriteShared.{macros_from_file_write_shared}
use FromTypeGetExtentX.{macros_from_type_get_extent_x}
use uni_mpi.Base.{String, List, ◌++◌}
use uni_mpi.Vtable.{Gate}
use uni_mpi.Names.Macro.{Replacement}

unfoldable pub std_macros : List (Gate × String × Replacement)
unfolding macros_from_info_null macros_from_test_cancelled macros_from_comm_split_type
    macros_from_file_write_shared macros_from_type_get_extent_x
std_macros =
    macros_from_info_null ++ macros_from_test_cancelled ++ macros_from_comm_split_type
    ++ macros_from_file_write_shared ++ macros_from_type_get_extent_x
