-- ===== src/Wrappers/Calls.antt =====
-- The wrappers of src/backends/mpich_wrappers.c around a function of the library. That function is
-- a parameter: it takes the memory, and gives back its outputs and what it has made of the memory.
-- The other arguments of a call are passed on unchanged and are part of the function.
use uni_mpi.Base.{ℕ, if◌then◌else◌}
use uni_mpi.Base.Int.{ℤ, int_eq}
use uni_mpi.Wrappers.{
  Words, reqs_compress_inplace, reqs_expand_inplace, dtypes_compress_inplace,
  dtypes_restore_inplace,
}

unfoldable pub mpich_wrap_startall {ℓ} :
    {R : Type ℓ} → (Words → R × Words) → ℕ → ℕ → Words → R × Words
mpich_wrap_startall startall reqs count m =
    let (ret, m1) = startall (reqs_compress_inplace reqs count m) in
    (ret, reqs_expand_inplace reqs count m1)

unfoldable pub mpich_wrap_testany {ℓ} :
    {R : Type ℓ} → (Words → R × Words) → ℕ → ℕ → Words → R × Words
mpich_wrap_testany testany reqs count m =
    let (ret, m1) = testany (reqs_compress_inplace reqs count m) in
    (ret, reqs_expand_inplace reqs count m1)

unfoldable pub mpich_wrap_waitany {ℓ} :
    {R : Type ℓ} → (Words → R × Words) → ℕ → ℕ → Words → R × Words
mpich_wrap_waitany waitany reqs count m =
    let (ret, m1) = waitany (reqs_compress_inplace reqs count m) in
    (ret, reqs_expand_inplace reqs count m1)

unfoldable pub mpich_wrap_type_create_struct {ℓ} :
    {R : Type ℓ} → (Words → R × Words) → ℕ → ℕ → Words → R × Words
mpich_wrap_type_create_struct type_create_struct types count m =
    let (ret, m1) = type_create_struct (dtypes_compress_inplace types count m) in
    (ret, dtypes_restore_inplace types count m1)

unfoldable pub mpich_wrap_type_struct {ℓ} :
    {R : Type ℓ} → (Words → R × Words) → ℕ → ℕ → Words → R × Words
mpich_wrap_type_struct type_struct types count m =
    let (ret, m1) = type_struct (dtypes_compress_inplace types count m) in
    (ret, dtypes_restore_inplace types count m1)

unfoldable pub mpich_wrap_comm_spawn_multiple {ℓ} :
    {R : Type ℓ} → (Words → R × Words) → ℕ → ℕ → Words → R × Words
mpich_wrap_comm_spawn_multiple comm_spawn_multiple info count m =
    let (ret, m1) = comm_spawn_multiple (dtypes_compress_inplace info count m) in
    (ret, dtypes_restore_inplace info count m1)

-- Handles that the library has written are only extended after success.
unfoldable pub mpich_wrap_type_get_contents : (Words → ℤ × Words) → ℤ → ℕ → ℕ → Words → ℤ × Words
mpich_wrap_type_get_contents type_get_contents mpi_success types max_datatypes m =
    let (ret, m1) = type_get_contents m in
    (ret, if int_eq ret mpi_success then dtypes_restore_inplace types max_datatypes m1 else m1)

-- `n` is what MPI_Comm_size has answered.
unfoldable pub mpich_wrap_alltoallw {ℓ} :
    {R : Type ℓ} → (Words → R × Words) → ℕ → ℕ → ℕ → Words → R × Words
mpich_wrap_alltoallw alltoallw sendtypes recvtypes n m =
    let sent = dtypes_compress_inplace sendtypes n m in
    let (ret, m1) = alltoallw (dtypes_compress_inplace recvtypes n sent) in
    (ret, dtypes_restore_inplace recvtypes n (dtypes_restore_inplace sendtypes n m1))

unfoldable pub mpich_wrap_ialltoallw {ℓ} :
    {R : Type ℓ} → (Words → R × Words) → ℕ → ℕ → ℕ → Words → R × Words
mpich_wrap_ialltoallw ialltoallw sendtypes recvtypes n m =
    let sent = dtypes_compress_inplace sendtypes n m in
    let (ret, m1) = ialltoallw (dtypes_compress_inplace recvtypes n sent) in
    (ret, dtypes_restore_inplace recvtypes n (dtypes_restore_inplace sendtypes n m1))
