-- ===== src/Fields.antt =====
-- The fields of the two function tables, each with the `#if UNIMPI_MPI_AT_LEAST` it stands under,
-- in the order of include/unimpi_vtable.h and include/unimpi_mt.h.
mod FromInit
mod FromReduceScatterBlock
mod FromCartCoords
mod FromFileWriteOrdered
mod FromKeyvalFree
mod Mt
use FromInit.{fields_from_init}
use FromReduceScatterBlock.{fields_from_reduce_scatter_block}
use FromCartCoords.{fields_from_cart_coords}
use FromFileWriteOrdered.{fields_from_file_write_ordered}
use FromKeyvalFree.{fields_from_keyval_free}
unfoldable pub use Mt.{mt_fields}
use uni_mpi.Base.{String, List, ◌++◌}
use uni_mpi.Vtable.{Gate}

unfoldable pub main_fields : List (Gate × String)
unfolding fields_from_init fields_from_reduce_scatter_block fields_from_cart_coords
    fields_from_file_write_ordered fields_from_keyval_free
main_fields =
    fields_from_init ++ fields_from_reduce_scatter_block ++ fields_from_cart_coords
    ++ fields_from_file_write_ordered ++ fields_from_keyval_free
