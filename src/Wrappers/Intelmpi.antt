-- ===== src/Wrappers/Intelmpi.antt =====
-- src/backends/intelmpi_wrappers.c: the arrays of handles for Intel MPI.
pub mod Calls
pub mod Neighbors
pub mod Statuses
pub mod Parity
use uni_mpi.Base.{ℕ, zero, suc, ◌+◌, ◌-◌, ◌*◌}
use uni_mpi.Wrappers.{Words, write, sign_word}

-- `k` rounds of the loop, the next one with `i`.
unfoldable pub compress_rounds : ℕ → ℕ → ℕ → Words → Words
compress_rounds zero i reqs m = m
compress_rounds (suc k) i reqs m =
    compress_rounds k (suc i) reqs (write (reqs + i) (m (reqs + 2 * i)) m)

-- `reqs` is the address of the array, in words.
unfoldable pub reqs_compress_inplace : ℕ → ℕ → Words → Words
unfolding compress_rounds
reqs_compress_inplace reqs n m = compress_rounds (n - 1) 1 reqs m

unfoldable pub reqs_expand_inplace : ℕ → ℕ → Words → Words
reqs_expand_inplace reqs zero m = m
reqs_expand_inplace reqs (suc i) m =
    let value = m (reqs + i) in
    reqs_expand_inplace reqs i
      (write (reqs + 2 * i + 1) (sign_word value) (write (reqs + 2 * i) value m))

unfoldable pub dtypes_compress_inplace : ℕ → ℕ → Words → Words
unfolding compress_rounds
dtypes_compress_inplace types n m = compress_rounds (n - 1) 1 types m

unfoldable pub dtypes_restore_inplace : ℕ → ℕ → Words → Words
dtypes_restore_inplace types zero m = m
dtypes_restore_inplace types (suc i) m =
    let value = m (types + i) in
    dtypes_restore_inplace types i
      (write (types + 2 * i + 1) (sign_word value) (write (types + 2 * i) value m))
