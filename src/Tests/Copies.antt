-- ===== src/Tests/Copies.antt =====
-- The wrappers for the three libraries at one input.
use uni_mpi.Base.{true, some, none}
use uni_mpi.Base.Int.{ℤ, pos}
use uni_mpi.Wrappers.{Words}
use uni_mpi.Wrappers.Neighbors.{Topology, Constants}
use uni_mpi.Wrappers.Overlap.{copy_upwards}
use uni_mpi.Wrappers
use uni_mpi.Wrappers.Intelmpi
use uni_mpi.Wrappers.Msmpi
use uni_mpi.Wrappers.Parity.{BothAre, wrappers_agree}

abbrev numbers : Words
numbers a = a

-- Functions of a library that answer with the memory they are given.
abbrev reading : Words → Words × Words
reading w = (w, w)

abbrev reading_some : Words → (Words × ℤ) × Words
reading_some w = ((w, pos 2), w)

abbrev reading_code : Words → ℤ × Words
reading_code w = (pos 0, w)

abbrev mpi : Constants
mpi = record { mpi_success = pos 0; mpi_err_topology = pos 10; cart = pos 2; graph = pos 1 }

-- A line of four processes, seen from its low end.
abbrev line : Topology
line = record {
  topo_test = some (pos 0, pos 2);
  cartdim_get = some (pos 0, pos 1);
  cart_get = some (pos 0, record { dims = λ _. 4; periods = λ _. true; coords = λ _. 0 });
  graphdims_get = none;
  graph_get = none;
  comm_rank = none;
  dist_graph_neighbors_count = none;
}

wrappers_agree_example :
    (BothAre
      (Intelmpi.Calls.intelmpi_wrap_startall reading 10 3 numbers)
      (Msmpi.Calls.msmpi_wrap_startall reading 10 3 numbers)
      (Wrappers.Calls.mpich_wrap_startall reading 10 3 numbers))
    × (BothAre
        (Intelmpi.Calls.intelmpi_wrap_testany reading 10 3 numbers)
        (Msmpi.Calls.msmpi_wrap_testany reading 10 3 numbers)
        (Wrappers.Calls.mpich_wrap_testany reading 10 3 numbers))
    × (BothAre
        (Intelmpi.Calls.intelmpi_wrap_waitany reading 10 3 numbers)
        (Msmpi.Calls.msmpi_wrap_waitany reading 10 3 numbers)
        (Wrappers.Calls.mpich_wrap_waitany reading 10 3 numbers))
    × (BothAre
        (Intelmpi.Calls.intelmpi_wrap_type_create_struct reading 10 3 numbers)
        (Msmpi.Calls.msmpi_wrap_type_create_struct reading 10 3 numbers)
        (Wrappers.Calls.mpich_wrap_type_create_struct reading 10 3 numbers))
    × (BothAre
        (Intelmpi.Calls.intelmpi_wrap_type_struct reading 10 3 numbers)
        (Msmpi.Calls.msmpi_wrap_type_struct reading 10 3 numbers)
        (Wrappers.Calls.mpich_wrap_type_struct reading 10 3 numbers))
    × (BothAre
        (Intelmpi.Calls.intelmpi_wrap_comm_spawn_multiple reading 10 3 numbers)
        (Msmpi.Calls.msmpi_wrap_comm_spawn_multiple reading 10 3 numbers)
        (Wrappers.Calls.mpich_wrap_comm_spawn_multiple reading 10 3 numbers))
    × (BothAre
        (Intelmpi.Calls.intelmpi_wrap_alltoallw reading 10 400 3 numbers)
        (Msmpi.Calls.msmpi_wrap_alltoallw reading 10 400 3 numbers)
        (Wrappers.Calls.mpich_wrap_alltoallw reading 10 400 3 numbers))
    × (BothAre
        (Intelmpi.Calls.intelmpi_wrap_ialltoallw reading 10 400 3 numbers)
        (Msmpi.Calls.msmpi_wrap_ialltoallw reading 10 400 3 numbers)
        (Wrappers.Calls.mpich_wrap_ialltoallw reading 10 400 3 numbers))
    × (BothAre
        (Intelmpi.Calls.intelmpi_wrap_type_get_contents reading_code (pos 0) 10 3 numbers)
        (Msmpi.Calls.msmpi_wrap_type_get_contents reading_code (pos 0) 10 3 numbers)
        (Wrappers.Calls.mpich_wrap_type_get_contents reading_code (pos 0) 10 3 numbers))
    × (BothAre
        (Intelmpi.Neighbors.intelmpi_wrap_neighbor_alltoallw mpi line reading_code 10 400 numbers)
        (Msmpi.Neighbors.msmpi_wrap_neighbor_alltoallw mpi line reading_code 10 400 numbers)
        (Wrappers.Neighbors.mpich_wrap_neighbor_alltoallw mpi line reading_code 10 400 numbers))
    × (BothAre
        (Intelmpi.Neighbors.intelmpi_wrap_neighbor_alltoallv mpi line reading_code 10 400 numbers)
        (Msmpi.Neighbors.msmpi_wrap_neighbor_alltoallv mpi line reading_code 10 400 numbers)
        (Wrappers.Neighbors.mpich_wrap_neighbor_alltoallv mpi line reading_code 10 400 numbers))
    × (BothAre
        (Intelmpi.Neighbors.intelmpi_wrap_ineighbor_alltoallw mpi line reading_code 10 400 numbers)
        (Msmpi.Neighbors.msmpi_wrap_ineighbor_alltoallw mpi line reading_code 10 400 numbers)
        (Wrappers.Neighbors.mpich_wrap_ineighbor_alltoallw mpi line reading_code 10 400 numbers))
    × (BothAre
        (Intelmpi.Neighbors.intelmpi_wrap_ineighbor_alltoallv mpi line reading_code 10 400 numbers)
        (Msmpi.Neighbors.msmpi_wrap_ineighbor_alltoallv mpi line reading_code 10 400 numbers)
        (Wrappers.Neighbors.mpich_wrap_ineighbor_alltoallv mpi line reading_code 10 400 numbers))
    × (BothAre
        (Intelmpi.Statuses.intelmpi_wrap_waitall copy_upwards 1 reading 10 400 3 numbers)
        (Msmpi.Statuses.msmpi_wrap_waitall copy_upwards 1 reading 10 400 3 numbers)
        (Wrappers.Statuses.mpich_wrap_waitall copy_upwards 1 reading 10 400 3 numbers))
    × (BothAre
        (Intelmpi.Statuses.intelmpi_wrap_testall copy_upwards 1 reading 10 400 3 numbers)
        (Msmpi.Statuses.msmpi_wrap_testall copy_upwards 1 reading 10 400 3 numbers)
        (Wrappers.Statuses.mpich_wrap_testall copy_upwards 1 reading 10 400 3 numbers))
    × (BothAre
        (Intelmpi.Statuses.intelmpi_wrap_testsome copy_upwards 1 reading_some 10 400 3 numbers)
        (Msmpi.Statuses.msmpi_wrap_testsome copy_upwards 1 reading_some 10 400 3 numbers)
        (Wrappers.Statuses.mpich_wrap_testsome copy_upwards 1 reading_some 10 400 3 numbers))
    × (BothAre
        (Intelmpi.Statuses.intelmpi_wrap_waitsome copy_upwards 1 reading_some 10 400 3 numbers)
        (Msmpi.Statuses.msmpi_wrap_waitsome copy_upwards 1 reading_some 10 400 3 numbers)
        (Wrappers.Statuses.mpich_wrap_waitsome copy_upwards 1 reading_some 10 400 3 numbers))
wrappers_agree_example =
    wrappers_agree reading reading_some reading_code mpi line copy_upwards 1 (pos 0) 10 400 3
      numbers
