-- ===== src/Tests/Requests.antt =====
-- Arrays of three handles that pass through a wrapper.
use uni_mpi.Base.{ℕ, ◌+◌, ◌*◌, ◌<◌, ◌≤◌, ◌≡◌, ◌==◌, if◌then◌else◌, refl, arith}
use uni_mpi.Wrappers.{Words, reqs_compress_inplace}
use uni_mpi.Wrappers.Calls.{
  mpich_wrap_startall, mpich_wrap_type_create_struct, mpich_wrap_alltoallw,
}
use uni_mpi.Wrappers.Handles.{
  IsHandle, startall_handles, type_create_struct_roundtrip, alltoallw_shared,
}

-- Three handles from word 10 on: 7, the negative 2147483649 as an unsigned number, and 9.
abbrev three_handles : Words
three_handles a =
    if a == 10
    then 7
    else if a == 12
    then 2147483649
    else if a == 13
    then 4294967295
    else if a == 14
    then 9
    else 0

-- A library that answers with its memory, and leaves that as it is.
abbrev reading : Words → Words × Words
reading w = (w, w)

second_of_three : 1 < 3
second_of_three = omega arith

startall_handles_example :
    let given = reqs_compress_inplace 10 3 three_handles in
    (given (10 + 1) ≡ three_handles (10 + 2 * 1))
    × IsHandle (mpich_wrap_startall reading 10 3 three_handles).1 10 1 (given (10 + 1))
startall_handles_example = startall_handles reading 10 3 1 three_handles second_of_three

only_reads : (w : Words) (a : ℕ) → a < 3 → (reading w).1 (10 + a) ≡ w (10 + a)
only_reads w a h = refl

second_extended : IsHandle three_handles 10 1 (three_handles (10 + 2 * 1))
second_extended = (refl, refl)

type_create_struct_roundtrip_example :
    IsHandle
      (mpich_wrap_type_create_struct reading 10 3 three_handles).1
      10
      1
      (three_handles (10 + 2 * 1))
type_create_struct_roundtrip_example =
    type_create_struct_roundtrip reading 10 3 1 three_handles only_reads second_extended
      second_of_three

three_processes : 3 ≤ 3
three_processes = omega arith

alltoallw_shared_example :
    (mpich_wrap_alltoallw (λ given. (given, given)) 10 10 3 three_handles).0 (10 + 1)
    ≡ three_handles (10 + 2 * 2)
alltoallw_shared_example = alltoallw_shared 10 3 three_handles three_processes
