-- ===== src/Wrappers/Intelmpi/Neighbors.antt =====
-- `neighbor_degree` of src/backends/intelmpi_wrappers.c and the neighbourhood collectives.
use uni_mpi.Base.{ℕ, zero, suc, ◌+◌, ◌-◌, ◌==◌, leb, ltb, if◌then◌else◌, some, none}
use uni_mpi.Base.Int.{ℤ, pos, int_eq, is_nonpos}
use uni_mpi.Wrappers.{Words}
use uni_mpi.Wrappers.Neighbors.{Cart, Topology, Constants, count_of, difference}
use uni_mpi.Wrappers.Intelmpi.{dtypes_compress_inplace, dtypes_restore_inplace}

-- What dimension `i` adds to the degree.
unfoldable pub dimension_degree : Cart → ℕ → ℕ
dimension_degree c i =
    if leb (c.dims i) 1
    then 0
    else if c.periods i
    then 2
    else (if ltb 0 (c.coords i) then 1 else 0) + (if ltb (c.coords i) (c.dims i - 1) then 1 else 0)

-- `k` rounds of the loop over the dimensions, the next one with `i`.
unfoldable pub cart_rounds : Cart → ℕ → ℕ → ℕ → ℕ
unfolding dimension_degree
cart_rounds c zero i deg = deg
cart_rounds c (suc k) i deg = cart_rounds c k (suc i) (deg + dimension_degree c i)

-- The code, and the two degrees, which are 0 before the call.
unfoldable pub cart_degree : Constants → Topology → ℤ × (ℤ × ℤ)
unfolding cart_rounds
cart_degree k t = elim t.cartdim_get [
  | none ↦ (k.mpi_err_topology, (pos 0, pos 0))
  | some (rc, ndims) ↦ elim t.cart_get [
    | none ↦ (k.mpi_err_topology, (pos 0, pos 0))
    | some (rc2, c) ↦
        if int_eq rc k.mpi_success
        then if is_nonpos ndims
          then (k.mpi_success, (pos 0, pos 0))
          else if int_eq rc2 k.mpi_success
          then (let deg = pos (cart_rounds c (count_of ndims) 0 0) in (rc2, (deg, deg)))
          else (rc2, (pos 0, pos 0))
        else (rc, (pos 0, pos 0))
  ]
]

unfoldable pub graph_degree : Constants → Topology → ℤ × (ℤ × ℤ)
graph_degree k t = elim t.graphdims_get [
  | none ↦ (k.mpi_err_topology, (pos 0, pos 0))
  | some rc ↦ elim t.graph_get [
    | none ↦ (k.mpi_err_topology, (pos 0, pos 0))
    | some (rc2, index) ↦ elim t.comm_rank [
      | none ↦ (k.mpi_err_topology, (pos 0, pos 0))
      | some (rc3, rank) ↦
          let before = if rank == 0 then 0 else index (rank - 1) in
          let deg = difference (index rank) before in
          if int_eq rc k.mpi_success
          then if int_eq rc2 k.mpi_success
            then if int_eq rc3 k.mpi_success then (rc3, (deg, deg)) else (rc3, (pos 0, pos 0))
            else (rc2, (pos 0, pos 0))
          else (rc, (pos 0, pos 0))
    ]
  ]
]

-- The calls of `malloc` are taken to succeed.
unfoldable pub neighbor_degree : Constants → Topology → ℤ × (ℤ × ℤ)
unfolding cart_degree graph_degree
neighbor_degree k t = elim t.topo_test [
  | none ↦ (k.mpi_err_topology, (pos 0, pos 0))
  | some (rc, topo_type) ↦
      if int_eq rc k.mpi_success
      then if int_eq topo_type k.cart
        then cart_degree k t
        else if int_eq topo_type k.graph
        then graph_degree k t
        else (elim t.dist_graph_neighbors_count [
          | none ↦ (k.mpi_err_topology, (pos 0, pos 0))
          | some answer ↦ answer
        ])
      else (rc, (pos 0, pos 0))
]

unfoldable pub intelmpi_wrap_neighbor_alltoallw :
    Constants → Topology → (Words → ℤ × Words) → ℕ → ℕ → Words → ℤ × Words
intelmpi_wrap_neighbor_alltoallw k t neighbor_alltoallw sendtypes recvtypes m =
    let (rc, (indeg, outdeg)) = neighbor_degree k t in
    let sent = dtypes_compress_inplace sendtypes (count_of outdeg) m in
    let (ret, m1) = neighbor_alltoallw (dtypes_compress_inplace recvtypes (count_of indeg) sent) in
    let m2 = dtypes_restore_inplace sendtypes (count_of outdeg) m1 in
    if int_eq rc k.mpi_success
    then (ret, dtypes_restore_inplace recvtypes (count_of indeg) m2)
    else (rc, m)

unfoldable pub intelmpi_wrap_neighbor_alltoallv :
    Constants → Topology → (Words → ℤ × Words) → ℕ → ℕ → Words → ℤ × Words
intelmpi_wrap_neighbor_alltoallv k t neighbor_alltoallv sendtypes recvtypes m =
    let (rc, (indeg, outdeg)) = neighbor_degree k t in
    let sent = dtypes_compress_inplace sendtypes (count_of outdeg) m in
    let (ret, m1) = neighbor_alltoallv (dtypes_compress_inplace recvtypes (count_of indeg) sent) in
    let m2 = dtypes_restore_inplace sendtypes (count_of outdeg) m1 in
    if int_eq rc k.mpi_success
    then (ret, dtypes_restore_inplace recvtypes (count_of indeg) m2)
    else (rc, m)

unfoldable pub intelmpi_wrap_ineighbor_alltoallw :
    Constants → Topology → (Words → ℤ × Words) → ℕ → ℕ → Words → ℤ × Words
intelmpi_wrap_ineighbor_alltoallw k t ineighbor_alltoallw sendtypes recvtypes m =
    let (rc, (indeg, outdeg)) = neighbor_degree k t in
    let sent = dtypes_compress_inplace sendtypes (count_of outdeg) m in
    let (ret, m1) = ineighbor_alltoallw (dtypes_compress_inplace recvtypes (count_of indeg) sent) in
    let m2 = dtypes_restore_inplace sendtypes (count_of outdeg) m1 in
    if int_eq rc k.mpi_success
    then (ret, dtypes_restore_inplace recvtypes (count_of indeg) m2)
    else (rc, m)

unfoldable pub intelmpi_wrap_ineighbor_alltoallv :
    Constants → Topology → (Words → ℤ × Words) → ℕ → ℕ → Words → ℤ × Words
intelmpi_wrap_ineighbor_alltoallv k t ineighbor_alltoallv sendtypes recvtypes m =
    let (rc, (indeg, outdeg)) = neighbor_degree k t in
    let sent = dtypes_compress_inplace sendtypes (count_of outdeg) m in
    let (ret, m1) = ineighbor_alltoallv (dtypes_compress_inplace recvtypes (count_of indeg) sent) in
    let m2 = dtypes_restore_inplace sendtypes (count_of outdeg) m1 in
    if int_eq rc k.mpi_success
    then (ret, dtypes_restore_inplace recvtypes (count_of indeg) m2)
    else (rc, m)
