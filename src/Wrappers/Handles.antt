-- ===== src/Wrappers/Handles.antt =====
-- What the library and the program see of an array of handles that passes through a wrapper.
use uni_mpi.Base.{ℕ, zero, suc, ◌+◌, ◌*◌, ◌<◌, ◌≤◌, ◌≡◌, refl, arith, ◌∙◌, ap}
use uni_mpi.Wrappers.{
  Words, write, sign_word, reqs_compress_inplace, reqs_expand_inplace, dtypes_compress_inplace,
  dtypes_restore_inplace,
}
use uni_mpi.Wrappers.Arrays.{compress_inside, expand_inside}
use uni_mpi.Wrappers.Calls.{
  mpich_wrap_startall, mpich_wrap_type_create_struct, mpich_wrap_alltoallw,
}

-- The low and the high half of handle `j` of the array at `a`.
abbrev pub IsHandle : Words → ℕ → ℕ → ℕ → Type 0
IsHandle m a j value = (m (a + 2 * j) ≡ value) × (m (a + 2 * j + 1) ≡ sign_word value)

compress_same : (a n : ℕ) (m : Words) → dtypes_compress_inplace a n m ≡ reqs_compress_inplace a n m
unfolding dtypes_compress_inplace reqs_compress_inplace
compress_same a n m = refl

restore_same : (a n : ℕ) (m : Words) → dtypes_restore_inplace a n m ≡ reqs_expand_inplace a n m
unfolding dtypes_restore_inplace reqs_expand_inplace
restore_same a zero m = refl
restore_same a (suc i) m =
    restore_same a i
      (write (a + 2 * i + 1) (sign_word (m (a + i))) (write (a + 2 * i) (m (a + i)) m))

-- Whatever the library does in MPI_Startall: of each of the `count` requests it is given the low
-- half, packed as an array of 32-bit words, and afterwards each request is the word that the
-- library has left in its place, extended by its sign.
pub startall_handles {ℓ} :
    {R : Type ℓ} (startall : Words → R × Words) (reqs count j : ℕ) (m : Words)
    → j < count
    → let given = reqs_compress_inplace reqs count m in
      (given (reqs + j) ≡ m (reqs + 2 * j))
      × IsHandle
          (mpich_wrap_startall startall reqs count m).1
          reqs
          j
          ((startall given).1 (reqs + j))
unfolding mpich_wrap_startall
startall_handles startall reqs count j m h = (
  compress_inside reqs count j m h,
  expand_inside reqs count j (startall (reqs_compress_inplace reqs count m)).1 h,
)

-- Where the library leaves the words of the packed array of datatypes as it was given them, and a
-- handle is the sign extension of its low half, MPI_Type_create_struct leaves this handle of the
-- array as it was.
pub type_create_struct_roundtrip {ℓ} :
    {R : Type ℓ} (type_create_struct : Words → R × Words) (types count j : ℕ) (m : Words)
    → ((w : Words) (a : ℕ) → a < count → (type_create_struct w).1 (types + a) ≡ w (types + a))
    → IsHandle m types j (m (types + 2 * j))
    → j < count
    → IsHandle
        (mpich_wrap_type_create_struct type_create_struct types count m).1
        types
        j
        (m (types + 2 * j))
unfolding mpich_wrap_type_create_struct
type_create_struct_roundtrip type_create_struct types count j m reads extended h =
    let given = dtypes_compress_inplace types count m in
    let m1 = (type_create_struct given).1 in
    let same = restore_same types count m1 in
    let (low, high) = expand_inside types count j m1 h in
    let kept : m1 (types + j) ≡ m (types + 2 * j) =
      reads given j h ∙ (rw (compress_same types count m) (compress_inside types count j m h)) in
    rw same (low ∙ kept, high ∙ ap sign_word kept)

-- When a program passes one array as both the send and the receive types of MPI_Alltoallw, of three
-- or more processes, the array is compressed twice, and the library finds the type of process 2
-- in the place of that of process 1.
pub alltoallw_shared :
    (types n : ℕ) (m : Words)
    → 3 ≤ n
    → (mpich_wrap_alltoallw (λ given. (given, given)) types types n m).0 (types + 1)
      ≡ m (types + 2 * 2)
unfolding mpich_wrap_alltoallw
alltoallw_shared types n m h =
    let once = dtypes_compress_inplace types n m in
    let second : dtypes_compress_inplace types n once (types + 1) ≡ once (types + 2 * 1) =
      rw (compress_same types n once) (compress_inside types n 1 once (omega arith)) in
    let first : once (types + 2) ≡ m (types + 2 * 2) =
      rw (compress_same types n m) (compress_inside types n 2 m (omega arith)) in
    second ∙ first
