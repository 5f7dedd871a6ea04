-- ===== src/Tests/Grids.antt =====
-- The corner of a grid.
use uni_mpi.Base.{ℕ, ◌<◌, ◌*◌, false, none, some, ◌≡◌, refl, arith}
use uni_mpi.Base.Int.{pos}
use uni_mpi.Wrappers.Neighbors.{Cart, Topology, Constants, neighbor_degree}
use uni_mpi.Wrappers.Degree.{IsAtEdge, neighbor_degree_edge}

-- Process 0 of 3 by 3, without wrapping around.
abbrev corner : Cart
corner = record { dims = λ _. 3; periods = λ _. false; coords = λ _. 0 }

abbrev constants : Constants
constants = record { mpi_success = pos 0; mpi_err_topology = pos 10; cart = pos 2; graph = pos 1 }

abbrev on_grid : Topology
on_grid = record {
  topo_test = some (pos 0, pos 2);
  cartdim_get = some (pos 0, pos 2);
  cart_get = some (pos 0, corner);
  graphdims_get = none;
  graph_get = none;
  comm_rank = some (pos 0, 0);
  dist_graph_neighbors_count = none;
}

second_dimension : 1 < 2
second_dimension = omega arith

at_edge : IsAtEdge corner 1
at_edge = (refl, refl)

neighbor_degree_edge_example :
    (deg : ℕ) × (neighbor_degree constants on_grid ≡ (pos 0, (pos deg, pos deg))) × (deg < 2 * 2)
neighbor_degree_edge_example =
    neighbor_degree_edge constants on_grid corner 2 1 refl refl refl second_dimension at_edge
