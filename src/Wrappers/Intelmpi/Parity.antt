-- ===== src/Wrappers/Intelmpi/Parity.antt =====
-- The wrappers of src/backends/intelmpi_wrappers.c against those of src/backends/mpich_wrappers.c.
use uni_mpi.Base.{ℕ, zero, suc, ◌+◌, ◌*◌, ◌-◌, ◌≡◌, refl, Option-cases, inl, inr}
use uni_mpi.Base.Int.{ℤ}
use uni_mpi.Wrappers.{Words, write, sign_word}
use uni_mpi.Wrappers.Neighbors.{Cart, Constants, Topology}
use uni_mpi.Wrappers.Statuses.{Copy}
use uni_mpi.Wrappers
use uni_mpi.Wrappers.Intelmpi

rounds_same :
    (k i reqs : ℕ) (m : Words)
    → Intelmpi.compress_rounds k i reqs m ≡ Wrappers.compress_rounds k i reqs m
unfolding Intelmpi.compress_rounds Wrappers.compress_rounds
rounds_same zero i reqs m = refl
rounds_same (suc k) i reqs m = rounds_same k (suc i) reqs (write (reqs + i) (m (reqs + 2 * i)) m)

expand_same :
    (reqs n : ℕ) (m : Words)
    → Intelmpi.reqs_expand_inplace reqs n m ≡ Wrappers.reqs_expand_inplace reqs n m
unfolding Intelmpi.reqs_expand_inplace Wrappers.reqs_expand_inplace
expand_same reqs zero m = refl
expand_same reqs (suc i) m =
    let value = m (reqs + i) in
    expand_same reqs i (write (reqs + 2 * i + 1) (sign_word value) (write (reqs + 2 * i) value m))

restore_same :
    (types n : ℕ) (m : Words)
    → Intelmpi.dtypes_restore_inplace types n m ≡ Wrappers.dtypes_restore_inplace types n m
unfolding Intelmpi.dtypes_restore_inplace Wrappers.dtypes_restore_inplace
restore_same types zero m = refl
restore_same types (suc i) m =
    let value = m (types + i) in
    restore_same types i
      (write (types + 2 * i + 1) (sign_word value) (write (types + 2 * i) value m))

statuses_same :
    (memcpy : Copy) (statuses n : ℕ) (m : Words)
    → Intelmpi.Statuses.statuses_expand_inplace memcpy statuses n m
      ≡ Wrappers.Statuses.statuses_expand_inplace memcpy statuses n m
unfolding Intelmpi.Statuses.statuses_expand_inplace Wrappers.Statuses.statuses_expand_inplace
statuses_same memcpy statuses zero m = refl
statuses_same memcpy statuses (suc i) m =
    statuses_same memcpy statuses i (memcpy (statuses + 6 * i) (statuses + 5 * i) m)

cart_same :
    (c : Cart) (k i deg : ℕ)
    → Intelmpi.Neighbors.cart_rounds c k i deg ≡ Wrappers.Neighbors.cart_rounds c k i deg
unfolding Intelmpi.Neighbors.cart_rounds Intelmpi.Neighbors.dimension_degree
    Wrappers.Neighbors.cart_rounds Wrappers.Neighbors.dimension_degree
cart_same c zero i deg = refl
cart_same c (suc k) i deg = cart_same c k (suc i) (deg + Wrappers.Neighbors.dimension_degree c i)

compress_path : Intelmpi.reqs_compress_inplace ≡ Wrappers.reqs_compress_inplace
unfolding Intelmpi.reqs_compress_inplace Wrappers.reqs_compress_inplace
compress_path = λ x reqs n m. rounds_same (n - 1) 1 reqs m x

types_path : Intelmpi.dtypes_compress_inplace ≡ Wrappers.dtypes_compress_inplace
unfolding Intelmpi.dtypes_compress_inplace Wrappers.dtypes_compress_inplace
types_path = λ x types n m. rounds_same (n - 1) 1 types m x

expand_path : Intelmpi.reqs_expand_inplace ≡ Wrappers.reqs_expand_inplace
expand_path = λ x reqs n m. expand_same reqs n m x

restore_path : Intelmpi.dtypes_restore_inplace ≡ Wrappers.dtypes_restore_inplace
restore_path = λ x types n m. restore_same types n m x

statuses_path :
    Intelmpi.Statuses.statuses_expand_inplace ≡ Wrappers.Statuses.statuses_expand_inplace
statuses_path = λ x memcpy statuses n m. statuses_same memcpy statuses n m x

cart_path : Intelmpi.Neighbors.cart_rounds ≡ Wrappers.Neighbors.cart_rounds
cart_path = λ x c k i deg. cart_same c k i deg x

cart_degree_same :
    (k : Constants) (t : Topology)
    → Intelmpi.Neighbors.cart_degree k t ≡ Wrappers.Neighbors.cart_degree k t
unfolding Intelmpi.Neighbors.cart_degree Wrappers.Neighbors.cart_degree
cart_degree_same k t = elim (Option-cases t.cartdim_get) [
  | inl absent ↦ rw absent refl
  | inr (dim, has_dim) ↦ elim (Option-cases t.cart_get) [
    | inl absent ↦ rw (has_dim, absent) refl
    | inr (got, has_cart) ↦ rw (has_dim, has_cart, cart_path) refl
  ]
]

degree_same :
    (k : Constants) (t : Topology)
    → Intelmpi.Neighbors.neighbor_degree k t ≡ Wrappers.Neighbors.neighbor_degree k t
unfolding Intelmpi.Neighbors.neighbor_degree Intelmpi.Neighbors.graph_degree
    Wrappers.Neighbors.neighbor_degree Wrappers.Neighbors.graph_degree
degree_same k t = elim (Option-cases t.topo_test) [
  | inl absent ↦ rw absent refl
  | inr (tested, has_test) ↦ rw (has_test, cart_degree_same k t) refl
]

pub requests_same {ℓ} :
    {R : Type ℓ} (f : Words → R × Words) (a n : ℕ) (m : Words)
    → (Intelmpi.Calls.intelmpi_wrap_startall f a n m ≡ Wrappers.Calls.mpich_wrap_startall f a n m)
      × (Intelmpi.Calls.intelmpi_wrap_testany f a n m ≡ Wrappers.Calls.mpich_wrap_testany f a n m)
      × (Intelmpi.Calls.intelmpi_wrap_waitany f a n m ≡ Wrappers.Calls.mpich_wrap_waitany f a n m)
unfolding Intelmpi.Calls.intelmpi_wrap_startall Intelmpi.Calls.intelmpi_wrap_testany
    Intelmpi.Calls.intelmpi_wrap_waitany Wrappers.Calls.mpich_wrap_startall
    Wrappers.Calls.mpich_wrap_testany Wrappers.Calls.mpich_wrap_waitany
requests_same f a n m = (
  rw (compress_path, expand_path) refl,
  rw (compress_path, expand_path) refl,
  rw (compress_path, expand_path) refl,
)

pub types_same {ℓ} :
    {R : Type ℓ} (f : Words → R × Words) (a b n : ℕ) (m : Words)
    → (Intelmpi.Calls.intelmpi_wrap_type_create_struct f a n m
        ≡ Wrappers.Calls.mpich_wrap_type_create_struct f a n m)
      × (Intelmpi.Calls.intelmpi_wrap_type_struct f a n m
          ≡ Wrappers.Calls.mpich_wrap_type_struct f a n m)
      × (Intelmpi.Calls.intelmpi_wrap_comm_spawn_multiple f a n m
          ≡ Wrappers.Calls.mpich_wrap_comm_spawn_multiple f a n m)
      × (Intelmpi.Calls.intelmpi_wrap_alltoallw f a b n m
          ≡ Wrappers.Calls.mpich_wrap_alltoallw f a b n m)
      × (Intelmpi.Calls.intelmpi_wrap_ialltoallw f a b n m
          ≡ Wrappers.Calls.mpich_wrap_ialltoallw f a b n m)
unfolding Intelmpi.Calls.intelmpi_wrap_type_create_struct Intelmpi.Calls.intelmpi_wrap_type_struct
    Intelmpi.Calls.intelmpi_wrap_comm_spawn_multiple Intelmpi.Calls.intelmpi_wrap_alltoallw
    Intelmpi.Calls.intelmpi_wrap_ialltoallw Wrappers.Calls.mpich_wrap_type_create_struct
    Wrappers.Calls.mpich_wrap_type_struct Wrappers.Calls.mpich_wrap_comm_spawn_multiple
    Wrappers.Calls.mpich_wrap_alltoallw Wrappers.Calls.mpich_wrap_ialltoallw
types_same f a b n m = (
  rw (types_path, restore_path) refl,
  rw (types_path, restore_path) refl,
  rw (types_path, restore_path) refl,
  rw (types_path, restore_path) refl,
  rw (types_path, restore_path) refl,
)

pub contents_same :
    (f : Words → ℤ × Words) (mpi_success : ℤ) (a n : ℕ) (m : Words)
    → (Intelmpi.Calls.intelmpi_wrap_type_get_contents f mpi_success a n m
        ≡ Wrappers.Calls.mpich_wrap_type_get_contents f mpi_success a n m)
unfolding Intelmpi.Calls.intelmpi_wrap_type_get_contents Wrappers.Calls.mpich_wrap_type_get_contents
contents_same f mpi_success a n m = rw restore_path refl

pub neighbors_same :
    (k : Constants) (t : Topology) (f : Words → ℤ × Words) (a b : ℕ) (m : Words)
    → (Intelmpi.Neighbors.intelmpi_wrap_neighbor_alltoallw k t f a b m
        ≡ Wrappers.Neighbors.mpich_wrap_neighbor_alltoallw k t f a b m)
      × (Intelmpi.Neighbors.intelmpi_wrap_neighbor_alltoallv k t f a b m
          ≡ Wrappers.Neighbors.mpich_wrap_neighbor_alltoallv k t f a b m)
      × (Intelmpi.Neighbors.intelmpi_wrap_ineighbor_alltoallw k t f a b m
          ≡ Wrappers.Neighbors.mpich_wrap_ineighbor_alltoallw k t f a b m)
      × (Intelmpi.Neighbors.intelmpi_wrap_ineighbor_alltoallv k t f a b m
          ≡ Wrappers.Neighbors.mpich_wrap_ineighbor_alltoallv k t f a b m)
unfolding Intelmpi.Neighbors.intelmpi_wrap_neighbor_alltoallw
    Intelmpi.Neighbors.intelmpi_wrap_neighbor_alltoallv
    Intelmpi.Neighbors.intelmpi_wrap_ineighbor_alltoallw
    Intelmpi.Neighbors.intelmpi_wrap_ineighbor_alltoallv
    Wrappers.Neighbors.mpich_wrap_neighbor_alltoallw
    Wrappers.Neighbors.mpich_wrap_neighbor_alltoallv
    Wrappers.Neighbors.mpich_wrap_ineighbor_alltoallw
    Wrappers.Neighbors.mpich_wrap_ineighbor_alltoallv
neighbors_same k t f a b m = (
  rw (degree_same k t, types_path, restore_path) refl,
  rw (degree_same k t, types_path, restore_path) refl,
  rw (degree_same k t, types_path, restore_path) refl,
  rw (degree_same k t, types_path, restore_path) refl,
)

pub all_statuses_same {ℓ} :
    {R : Type ℓ} (memcpy : Copy) (ignore : ℕ) (f : Words → R × Words) (a s n : ℕ) (m : Words)
    → (Intelmpi.Statuses.intelmpi_wrap_waitall memcpy ignore f a s n m
        ≡ Wrappers.Statuses.mpich_wrap_waitall memcpy ignore f a s n m)
      × (Intelmpi.Statuses.intelmpi_wrap_testall memcpy ignore f a s n m
          ≡ Wrappers.Statuses.mpich_wrap_testall memcpy ignore f a s n m)
unfolding Intelmpi.Statuses.intelmpi_wrap_waitall Intelmpi.Statuses.intelmpi_wrap_testall
    Wrappers.Statuses.mpich_wrap_waitall Wrappers.Statuses.mpich_wrap_testall
    Intelmpi.Statuses.statuses_writable Wrappers.Statuses.statuses_writable
all_statuses_same memcpy ignore f a s n m = (
  rw (compress_path, expand_path, statuses_path) refl,
  rw (compress_path, expand_path, statuses_path) refl,
)

pub some_statuses_same {ℓ} :
    {R : Type ℓ} (memcpy : Copy) (ignore : ℕ) (f : Words → (R × ℤ) × Words) (a s n : ℕ) (m : Words)
    → (Intelmpi.Statuses.intelmpi_wrap_testsome memcpy ignore f a s n m
        ≡ Wrappers.Statuses.mpich_wrap_testsome memcpy ignore f a s n m)
      × (Intelmpi.Statuses.intelmpi_wrap_waitsome memcpy ignore f a s n m
          ≡ Wrappers.Statuses.mpich_wrap_waitsome memcpy ignore f a s n m)
unfolding Intelmpi.Statuses.intelmpi_wrap_testsome Intelmpi.Statuses.intelmpi_wrap_waitsome
    Wrappers.Statuses.mpich_wrap_testsome Wrappers.Statuses.mpich_wrap_waitsome
    Intelmpi.Statuses.statuses_writable Wrappers.Statuses.statuses_writable
some_statuses_same memcpy ignore f a s n m = (
  rw (compress_path, expand_path, statuses_path) refl,
  rw (compress_path, expand_path, statuses_path) refl,
)
