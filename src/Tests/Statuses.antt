-- ===== src/Tests/Statuses.antt =====
-- A wait without statuses, and the wrappers for the other libraries.
use uni_mpi.Base.{◌+◌, ◌*◌, ◌≡◌, refl, arith, inr}
use uni_mpi.Base.Int.{ℤ, pos}
use uni_mpi.Wrappers.{Words, reqs_compress_inplace}
use uni_mpi.Wrappers.Statuses.{
  statuses_expand_inplace, mpich_wrap_waitall, mpich_wrap_testall, mpich_wrap_waitsome,
  mpich_wrap_testsome,
}
use uni_mpi.Wrappers.Completion.{IsMemcpy, Passes, completion_requests}
use uni_mpi.Wrappers.Overlap.{copy_upwards, IsMemcpy-overlap}

-- The library leaves its own number in each word; the program's requests stand in words 10 to 15.
abbrev numbered : Words → ℤ × Words
numbered m = (pos 0, λ a. a)

abbrev memory : Words
memory a = 3 * a

-- The same library, which answers that two requests are done.
abbrev numbered_two : Words → (ℤ × ℤ) × Words
numbered_two m = ((pos 0, pos 2), λ a. a)

-- Request 1 of three, with UNIMPI_STATUS_IGNORE, which is 1, in place of the statuses.
completion_requests_example :
    let given = reqs_compress_inplace 10 3 memory in
    (given (10 + 1) ≡ memory (10 + 2 * 1))
    × Passes 10 1 16 (numbered given) (mpich_wrap_waitall copy_upwards 1 numbered 10 1 3 memory)
    × Passes 10 1 16 (numbered given) (mpich_wrap_testall copy_upwards 1 numbered 10 1 3 memory)
    × Passes 10 1 16
        (numbered_two given)
        (mpich_wrap_waitsome copy_upwards 1 numbered_two 10 1 3 memory)
    × Passes 10 1 16
        (numbered_two given)
        (mpich_wrap_testsome copy_upwards 1 numbered_two 10 1 3 memory)
completion_requests_example =
    completion_requests copy_upwards 1 numbered numbered_two 10 1 3 1 16 memory (inr refl)
      (omega arith) (inr (omega arith))

IsMemcpy-overlap_example :
    IsMemcpy copy_upwards
    × (statuses_expand_inplace copy_upwards 100 3 memory (100 + 6 + 2) ≡ memory (100 + 5))
IsMemcpy-overlap_example = IsMemcpy-overlap 100 3 memory (omega arith)
