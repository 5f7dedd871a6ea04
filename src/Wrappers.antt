-- ===== src/Wrappers.antt =====
-- src/backends/mpich_wrappers.c, whose handle arrays hold 8-byte handles for the program and 4-byte
-- ones for the library. The files for Intel MPI and MS-MPI have the same code under their names.
pub mod Arrays
pub mod Calls
pub mod Handles
pub mod Neighbors
pub mod Degree
pub mod Statuses
pub mod Completion
pub mod Overlap
pub mod Intelmpi
pub mod Msmpi
pub mod Parity
use uni_mpi.Base.{ℕ, zero, suc, ◌+◌, ◌-◌, ◌*◌, ◌==◌, leb, if◌then◌else◌}

-- Memory as 32-bit words, by the number of the word. Of the 8 bytes of a handle the low half comes
-- first: the supported machines are little-endian.
abbrev pub Words : Type 0
Words = ℕ → ℕ

abbrev pub write : ℕ → ℕ → Words → Words
write at value m a = if a == at then value else m a

-- The upper half of `(intptr_t)val`.
abbrev pub sign_word : ℕ → ℕ
sign_word value = if leb 2147483648 value then 4294967295 else 0

-- `k` rounds of the loop, the next one with `i`.
unfoldable pub compress_rounds : ℕ → ℕ → ℕ → Words → Words
compress_rounds zero i reqs m = m
compress_rounds (suc k) i reqs m =
    compress_rounds k (suc i) reqs (write (reqs + i) (m (reqs + 2 * i)) m)

-- `reqs` is the address of the array, in words.
unfoldable pub reqs_compress_inplace : ℕ → ℕ → Words → Words
unfolding compress_rounds
reqs_compress_inplace reqs n m = compress_rounds (n - 1) 1 reqs m

unfoldable pub reqs_expand_inplace : ℕ → ℕ → Words → Words
reqs_expand_inplace reqs zero m = m
reqs_expand_inplace reqs (suc i) m =
    let value = m (reqs + i) in
    reqs_expand_inplace reqs i
      (write (reqs + 2 * i + 1) (sign_word value) (write (reqs + 2 * i) value m))

unfoldable pub dtypes_compress_inplace : ℕ → ℕ → Words → Words
unfolding compress_rounds
dtypes_compress_inplace types n m = compress_rounds (n - 1) 1 types m

unfoldable pub dtypes_restore_inplace : ℕ → ℕ → Words → Words
dtypes_restore_inplace types zero m = m
dtypes_restore_inplace types (suc i) m =
    let value = m (types + i) in
    dtypes_restore_inplace types i
      (write (types + 2 * i + 1) (sign_word value) (write (types + 2 * i) value m))
