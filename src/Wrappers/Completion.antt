-- ===== src/Wrappers/Completion.antt =====
-- What the program and the library see of the requests of a wait or a test for several of them.
use uni_mpi.Base.{ℕ, ◌+◌, ◌*◌, ◌<◌, ◌≤◌, ◌≡◌, refl, ◌⊎◌, inl, inr, arith, false}
use uni_mpi.Base.Int.{ℤ}
use uni_mpi.Wrappers.{Words, reqs_compress_inplace, reqs_expand_inplace}
use uni_mpi.Wrappers.Arrays.{compress_inside, expand_inside, expand_outside}
use uni_mpi.Wrappers.Handles.{IsHandle}
use uni_mpi.Wrappers.Statuses.{
  Copy, statuses_writable, mpich_wrap_waitall, mpich_wrap_testall, mpich_wrap_waitsome,
  mpich_wrap_testsome,
}

-- The five words at `to` become what those at `from` were, and no other word changes.
abbrev pub Copies : Copy → ℕ → ℕ → Type 0
Copies memcpy to from =
    (m : Words)
    → ((k : ℕ) → k < 5 → memcpy to from m (to + k) ≡ m (from + k))
      × ((a : ℕ) → a < to → memcpy to from m a ≡ m a)
      × ((a : ℕ) → to + 5 ≤ a → memcpy to from m a ≡ m a)

-- What `memcpy` promises.
abbrev pub IsMemcpy : Copy → Type 0
IsMemcpy memcpy = (to from : ℕ) → (to + 5 ≤ from) ⊎ (from + 5 ≤ to) → Copies memcpy to from

-- NULL and the sentinel are not arrays to write to.
not_writable :
    (ignore statuses : ℕ)
    → (statuses ≡ 0) ⊎ (statuses ≡ ignore)
    → statuses_writable ignore statuses ≡ false
unfolding statuses_writable
not_writable ignore statuses (inl null) = ground arith
not_writable ignore statuses (inr sentinel) = ground arith

-- What the wrapper answers, `out`, from what the library has answered, `own`: the same results,
-- request `j` the word that the library has left in its place, extended by its sign, and word `a`
-- as the library has left it.
abbrev pub Passes {ℓ} : {R : Type ℓ} → ℕ → ℕ → ℕ → R × Words → R × Words → Type ℓ
Passes reqs j a own out =
    (out.0 ≡ own.0) × IsHandle out.1 reqs j (own.1 (reqs + j)) × (out.1 a ≡ own.1 a)

expanded-Passes {ℓ} :
    {R : Type ℓ} (reqs count j a : ℕ) (own : R × Words)
    → j < count
    → (a < reqs) ⊎ (reqs + 2 * count ≤ a)
    → Passes reqs j a own (own.0, reqs_expand_inplace reqs count own.1)
expanded-Passes reqs count j a own h outside =
    (refl, expand_inside reqs count j own.1 h, expand_outside reqs count a own.1 outside)

-- For a program that asks for no statuses, with NULL or the sentinel in place of their array,
-- whatever the library does: MPI_Waitall, MPI_Testall, MPI_Waitsome and MPI_Testsome of the library
-- are given the low half of each of the `count` requests, packed as an array of 32-bit words; the
-- program gets their results as they are, each request as the word that the library has left in its
-- place, extended by its sign, and every word outside of the array as the library has left it.
pub completion_requests {ℓ} :
    {R : Type ℓ} (memcpy : Copy) (ignore : ℕ) (f : Words → R × Words) (g : Words → (R × ℤ) × Words)
    (reqs statuses count j a : ℕ) (m : Words)
    → (statuses ≡ 0) ⊎ (statuses ≡ ignore)
    → j < count
    → (a < reqs) ⊎ (reqs + 2 * count ≤ a)
    → let given = reqs_compress_inplace reqs count m in
      (given (reqs + j) ≡ m (reqs + 2 * j))
      × Passes reqs j a (f given) (mpich_wrap_waitall memcpy ignore f reqs statuses count m)
      × Passes reqs j a (f given) (mpich_wrap_testall memcpy ignore f reqs statuses count m)
      × Passes reqs j a (g given) (mpich_wrap_waitsome memcpy ignore g reqs statuses count m)
      × Passes reqs j a (g given) (mpich_wrap_testsome memcpy ignore g reqs statuses count m)
unfolding mpich_wrap_waitall mpich_wrap_testall mpich_wrap_waitsome mpich_wrap_testsome
completion_requests memcpy ignore f g reqs statuses count j a m none h outside =
    let given = reqs_compress_inplace reqs count m in
    let ignored = not_writable ignore statuses none in
    let every = expanded-Passes reqs count j a (f given) h outside in
    let some_of_them = expanded-Passes reqs count j a (g given) h outside in
    (
      compress_inside reqs count j m h,
      rw ignored every,
      rw ignored every,
      rw ignored some_of_them,
      rw ignored some_of_them,
    )
