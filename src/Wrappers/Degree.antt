-- ===== src/Wrappers/Degree.antt =====
-- The degree that `neighbor_degree` of src/backends/mpich_wrappers.c finds in a Cartesian topology.
use uni_mpi.Base.{
  ℕ, zero, suc, ◌+◌, ◌*◌, ◌<◌, ◌≤◌, false, some, ◌≡◌, ◌≢◌, refl, arith, inl, inr, Bool-cases, ◌==◌,
  ==_iff,
}
use uni_mpi.Base.Int.{pos, int_eq_iff, is_nonpos}
use uni_mpi.Wrappers.Neighbors.{
  Cart, Topology, Constants, dimension_degree, cart_rounds, neighbor_degree, cart_degree,
}

dimension_degree_le : (c : Cart) (i : ℕ) → dimension_degree c i ≤ 2
unfolding dimension_degree
dimension_degree_le c i = ground arith

cart_rounds_le : (c : Cart) (k i deg : ℕ) → cart_rounds c k i deg ≤ deg + 2 * k
unfolding cart_rounds
cart_rounds_le c zero i deg = omega arith
cart_rounds_le c (suc k) i deg =
    let bound = cart_rounds_le c k (suc i) (deg + dimension_degree c i) in
    let step = dimension_degree_le c i in omega arith

-- The process stands at the low end of a dimension that does not wrap around.
abbrev pub IsAtEdge : Cart → ℕ → Type 0
IsAtEdge c i = (c.periods i ≡ false) × (c.coords i ≡ 0)

dimension_degree_edge : (c : Cart) (i : ℕ) → IsAtEdge c i → dimension_degree c i ≤ 1
unfolding dimension_degree
dimension_degree_edge c i (open_end, low) = ground (arith, open_end, low)

cart_rounds_edge :
    (c : Cart) (k i deg j : ℕ)
    → i ≤ j
    → j < i + k
    → IsAtEdge c j
    → cart_rounds c k i deg < deg + 2 * k
unfolding cart_rounds
cart_rounds_edge c zero i deg j lo hi edge = absurd (omega arith)
cart_rounds_edge c (suc k) i deg j lo hi edge = elim (Bool-cases (i == j)) [
  | inl same ↦
      let e : i ≡ j = (==_iff i j).0 same in
      let step : dimension_degree c i ≤ 1 = rw e (dimension_degree_edge c j edge) in
      let bound = cart_rounds_le c k (suc i) (deg + dimension_degree c i) in omega arith
  | inr other ↦
      let n : i ≢ j = ground (arith, ==_iff i j) in
      let bound =
        cart_rounds_edge c k (suc i) (deg + dimension_degree c i) j (omega arith) (omega arith)
          edge in
      let step = dimension_degree_le c i in omega arith
]

-- In a Cartesian topology of `n` dimensions, where all calls succeed and the process stands at the
-- low end of a dimension that does not wrap around, `neighbor_degree` succeeds with one number for
-- both degrees, and this is less than two for each dimension.
pub neighbor_degree_edge :
    (k : Constants) (t : Topology) (c : Cart) (n j : ℕ)
    → t.topo_test ≡ some (k.mpi_success, k.cart)
    → t.cartdim_get ≡ some (k.mpi_success, pos n)
    → t.cart_get ≡ some (k.mpi_success, c)
    → j < n
    → IsAtEdge c j
    → (deg : ℕ) × (neighbor_degree k t ≡ (k.mpi_success, (pos deg, pos deg))) × (deg < 2 * n)
unfolding neighbor_degree cart_degree
neighbor_degree_edge k t c n j tested dimensions got inside edge =
    let ok = (int_eq_iff k.mpi_success k.mpi_success).1 refl in
    let is_cart = (int_eq_iff k.cart k.cart).1 refl in
    let positive : is_nonpos (pos n) ≡ false = ground arith in
    (
      cart_rounds c n 0 0,
      rw (tested, dimensions, got, ok, is_cart, positive) refl,
      (let below = cart_rounds_edge c n 0 0 j (omega arith) (omega arith) edge in omega arith),
    )
