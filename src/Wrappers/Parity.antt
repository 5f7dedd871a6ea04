-- ===== src/Wrappers/Parity.antt =====
-- The three files of wrappers against one another.
use uni_mpi.Base.{ℕ, ◌≡◌}
use uni_mpi.Base.Int.{ℤ}
use uni_mpi.Wrappers.{Words}
use uni_mpi.Wrappers.Neighbors.{Constants, Topology}
use uni_mpi.Wrappers.Statuses.{Copy}
use uni_mpi.Wrappers
use uni_mpi.Wrappers.Intelmpi
use uni_mpi.Wrappers.Msmpi

abbrev pub BothAre {ℓ} : {A : Type ℓ} → A → A → A → Type ℓ
BothAre x y z = (x ≡ z) × (y ≡ z)

-- Each of the 17 wrappers for Intel MPI and for MS-MPI gives what the one for MPICH gives with the
-- same function of the library, the same arguments and the same memory.
pub wrappers_agree {ℓ} :
    {R : Type ℓ} (f : Words → R × Words) (g : Words → (R × ℤ) × Words) (h : Words → ℤ × Words)
    (k : Constants) (t : Topology) (memcpy : Copy) (ignore : ℕ) (mpi_success : ℤ) (a b n : ℕ)
    (m : Words)
    → (BothAre
        (Intelmpi.Calls.intelmpi_wrap_startall f a n m)
        (Msmpi.Calls.msmpi_wrap_startall f a n m)
        (Wrappers.Calls.mpich_wrap_startall f a n m))
      × (BothAre
          (Intelmpi.Calls.intelmpi_wrap_testany f a n m)
          (Msmpi.Calls.msmpi_wrap_testany f a n m)
          (Wrappers.Calls.mpich_wrap_testany f a n m))
      × (BothAre
          (Intelmpi.Calls.intelmpi_wrap_waitany f a n m)
          (Msmpi.Calls.msmpi_wrap_waitany f a n m)
          (Wrappers.Calls.mpich_wrap_waitany f a n m))
      × (BothAre
          (Intelmpi.Calls.intelmpi_wrap_type_create_struct f a n m)
          (Msmpi.Calls.msmpi_wrap_type_create_struct f a n m)
          (Wrappers.Calls.mpich_wrap_type_create_struct f a n m))
      × (BothAre
          (Intelmpi.Calls.intelmpi_wrap_type_struct f a n m)
          (Msmpi.Calls.msmpi_wrap_type_struct f a n m)
          (Wrappers.Calls.mpich_wrap_type_struct f a n m))
      × (BothAre
          (Intelmpi.Calls.intelmpi_wrap_comm_spawn_multiple f a n m)
          (Msmpi.Calls.msmpi_wrap_comm_spawn_multiple f a n m)
          (Wrappers.Calls.mpich_wrap_comm_spawn_multiple f a n m))
      × (BothAre
          (Intelmpi.Calls.intelmpi_wrap_alltoallw f a b n m)
          (Msmpi.Calls.msmpi_wrap_alltoallw f a b n m)
          (Wrappers.Calls.mpich_wrap_alltoallw f a b n m))
      × (BothAre
          (Intelmpi.Calls.intelmpi_wrap_ialltoallw f a b n m)
          (Msmpi.Calls.msmpi_wrap_ialltoallw f a b n m)
          (Wrappers.Calls.mpich_wrap_ialltoallw f a b n m))
      × (BothAre
          (Intelmpi.Calls.intelmpi_wrap_type_get_contents h mpi_success a n m)
          (Msmpi.Calls.msmpi_wrap_type_get_contents h mpi_success a n m)
          (Wrappers.Calls.mpich_wrap_type_get_contents h mpi_success a n m))
      × (BothAre
          (Intelmpi.Neighbors.intelmpi_wrap_neighbor_alltoallw k t h a b m)
          (Msmpi.Neighbors.msmpi_wrap_neighbor_alltoallw k t h a b m)
          (Wrappers.Neighbors.mpich_wrap_neighbor_alltoallw k t h a b m))
      × (BothAre
          (Intelmpi.Neighbors.intelmpi_wrap_neighbor_alltoallv k t h a b m)
          (Msmpi.Neighbors.msmpi_wrap_neighbor_alltoallv k t h a b m)
          (Wrappers.Neighbors.mpich_wrap_neighbor_alltoallv k t h a b m))
      × (BothAre
          (Intelmpi.Neighbors.intelmpi_wrap_ineighbor_alltoallw k t h a b m)
          (Msmpi.Neighbors.msmpi_wrap_ineighbor_alltoallw k t h a b m)
          (Wrappers.Neighbors.mpich_wrap_ineighbor_alltoallw k t h a b m))
      × (BothAre
          (Intelmpi.Neighbors.intelmpi_wrap_ineighbor_alltoallv k t h a b m)
          (Msmpi.Neighbors.msmpi_wrap_ineighbor_alltoallv k t h a b m)
          (Wrappers.Neighbors.mpich_wrap_ineighbor_alltoallv k t h a b m))
      × (BothAre
          (Intelmpi.Statuses.intelmpi_wrap_waitall memcpy ignore f a b n m)
          (Msmpi.Statuses.msmpi_wrap_waitall memcpy ignore f a b n m)
          (Wrappers.Statuses.mpich_wrap_waitall memcpy ignore f a b n m))
      × (BothAre
          (Intelmpi.Statuses.intelmpi_wrap_testall memcpy ignore f a b n m)
          (Msmpi.Statuses.msmpi_wrap_testall memcpy ignore f a b n m)
          (Wrappers.Statuses.mpich_wrap_testall memcpy ignore f a b n m))
      × (BothAre
          (Intelmpi.Statuses.intelmpi_wrap_testsome memcpy ignore g a b n m)
          (Msmpi.Statuses.msmpi_wrap_testsome memcpy ignore g a b n m)
          (Wrappers.Statuses.mpich_wrap_testsome memcpy ignore g a b n m))
      × (BothAre
          (Intelmpi.Statuses.intelmpi_wrap_waitsome memcpy ignore g a b n m)
          (Msmpi.Statuses.msmpi_wrap_waitsome memcpy ignore g a b n m)
          (Wrappers.Statuses.mpich_wrap_waitsome memcpy ignore g a b n m))
wrappers_agree f g h k t memcpy ignore mpi_success a b n m = (
  ((Intelmpi.Parity.requests_same f a n m).0, (Msmpi.Parity.requests_same f a n m).0),
  ((Intelmpi.Parity.requests_same f a n m).1, (Msmpi.Parity.requests_same f a n m).1),
  ((Intelmpi.Parity.requests_same f a n m).2, (Msmpi.Parity.requests_same f a n m).2),
  ((Intelmpi.Parity.types_same f a b n m).0, (Msmpi.Parity.types_same f a b n m).0),
  ((Intelmpi.Parity.types_same f a b n m).1, (Msmpi.Parity.types_same f a b n m).1),
  ((Intelmpi.Parity.types_same f a b n m).2, (Msmpi.Parity.types_same f a b n m).2),
  ((Intelmpi.Parity.types_same f a b n m).3, (Msmpi.Parity.types_same f a b n m).3),
  ((Intelmpi.Parity.types_same f a b n m).4, (Msmpi.Parity.types_same f a b n m).4),
  (
    (Intelmpi.Parity.contents_same h mpi_success a n m),
    (Msmpi.Parity.contents_same h mpi_success a n m),
  ),
  ((Intelmpi.Parity.neighbors_same k t h a b m).0, (Msmpi.Parity.neighbors_same k t h a b m).0),
  ((Intelmpi.Parity.neighbors_same k t h a b m).1, (Msmpi.Parity.neighbors_same k t h a b m).1),
  ((Intelmpi.Parity.neighbors_same k t h a b m).2, (Msmpi.Parity.neighbors_same k t h a b m).2),
  ((Intelmpi.Parity.neighbors_same k t h a b m).3, (Msmpi.Parity.neighbors_same k t h a b m).3),
  (
    (Intelmpi.Parity.all_statuses_same memcpy ignore f a b n m).0,
    (Msmpi.Parity.all_statuses_same memcpy ignore f a b n m).0,
  ),
  (
    (Intelmpi.Parity.all_statuses_same memcpy ignore f a b n m).1,
    (Msmpi.Parity.all_statuses_same memcpy ignore f a b n m).1,
  ),
  (
    (Intelmpi.Parity.some_statuses_same memcpy ignore g a b n m).0,
    (Msmpi.Parity.some_statuses_same memcpy ignore g a b n m).0,
  ),
  (
    (Intelmpi.Parity.some_statuses_same memcpy ignore g a b n m).1,
    (Msmpi.Parity.some_statuses_same memcpy ignore g a b n m).1,
  ),
)
