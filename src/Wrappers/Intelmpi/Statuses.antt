-- ===== src/Wrappers/Intelmpi/Statuses.antt =====
-- The arrays of statuses in src/backends/intelmpi_wrappers.c, and the functions of src/backends/intelmpi.c that
-- read a status.
use uni_mpi.Base.{ℕ, zero, suc, ◌+◌, ◌*◌, ◌/◌, ◌==◌, Bool, not, ◌&&◌, if◌then◌else◌}
use uni_mpi.Base.Int.{ℤ}
use uni_mpi.Wrappers.{Words}
use uni_mpi.Wrappers.Neighbors.{count_of}
use uni_mpi.Wrappers.Statuses.{Copy}
use uni_mpi.Wrappers.Intelmpi.{reqs_compress_inplace, reqs_expand_inplace}

-- `statuses` is the number of the first word. The code computes the offsets 24 * i and 20 * i in
-- bytes, as `int`: above 89478486 statuses, which C leaves undefined, this is no model of it.
unfoldable pub statuses_expand_inplace : Copy → ℕ → ℕ → Words → Words
statuses_expand_inplace memcpy statuses zero m = m
statuses_expand_inplace memcpy statuses (suc i) m =
    statuses_expand_inplace memcpy statuses i (memcpy (statuses + 6 * i) (statuses + 5 * i) m)

-- Both are addresses in bytes; `ignore` is UNIMPI_STATUS_IGNORE.
unfoldable pub statuses_writable : ℕ → ℕ → Bool
statuses_writable ignore statuses = not (statuses == 0) && not (statuses == ignore)

-- `if (statuses_writable(array_of_statuses)) statuses_expand_inplace(array_of_statuses, n);`
abbrev pub expand_writable : Copy → ℕ → ℕ → ℕ → Words → Words
expand_writable memcpy ignore statuses n m =
    if statuses_writable ignore statuses
    then statuses_expand_inplace memcpy (statuses / 4) n m
    else m

-- `reqs` is the number of the first word of the requests, `statuses` an address in bytes.
unfoldable pub intelmpi_wrap_waitall {ℓ} :
    {R : Type ℓ} → Copy → ℕ → (Words → R × Words) → ℕ → ℕ → ℕ → Words → R × Words
unfolding statuses_expand_inplace statuses_writable
intelmpi_wrap_waitall memcpy ignore waitall reqs statuses count m =
    let (ret, m1) = waitall (reqs_compress_inplace reqs count m) in
    (ret, expand_writable memcpy ignore statuses count (reqs_expand_inplace reqs count m1))

-- The function of the library gives back the code and `*flag`.
unfoldable pub intelmpi_wrap_testall {ℓ} :
    {R : Type ℓ} → Copy → ℕ → (Words → R × Words) → ℕ → ℕ → ℕ → Words → R × Words
unfolding statuses_expand_inplace statuses_writable
intelmpi_wrap_testall memcpy ignore testall reqs statuses count m =
    let (ret, m1) = testall (reqs_compress_inplace reqs count m) in
    (ret, expand_writable memcpy ignore statuses count (reqs_expand_inplace reqs count m1))

-- The function of the library gives back the code and `*outcount`, which counts the statuses.
unfoldable pub intelmpi_wrap_testsome {ℓ} :
    {R : Type ℓ} → Copy → ℕ → (Words → (R × ℤ) × Words) → ℕ → ℕ → ℕ → Words → (R × ℤ) × Words
unfolding statuses_expand_inplace statuses_writable
intelmpi_wrap_testsome memcpy ignore testsome reqs statuses incount m =
    let ((ret, outcount), m1) = testsome (reqs_compress_inplace reqs incount m) in
    let m2 = reqs_expand_inplace reqs incount m1 in
    ((ret, outcount), expand_writable memcpy ignore statuses (count_of outcount) m2)

unfoldable pub intelmpi_wrap_waitsome {ℓ} :
    {R : Type ℓ} → Copy → ℕ → (Words → (R × ℤ) × Words) → ℕ → ℕ → ℕ → Words → (R × ℤ) × Words
unfolding statuses_expand_inplace statuses_writable
intelmpi_wrap_waitsome memcpy ignore waitsome reqs statuses incount m =
    let ((ret, outcount), m1) = waitsome (reqs_compress_inplace reqs incount m) in
    let m2 = reqs_expand_inplace reqs incount m1 in
    ((ret, outcount), expand_writable memcpy ignore statuses (count_of outcount) m2)

-- The code, and what is written: a word of the status from word `status` on.
unfoldable pub status_legacy_get_source : ℤ → ℕ → Words → ℤ × ℕ
status_legacy_get_source mpi_success status m = (mpi_success, m (status + 2))

unfoldable pub status_legacy_get_tag : ℤ → ℕ → Words → ℤ × ℕ
status_legacy_get_tag mpi_success status m = (mpi_success, m (status + 3))

unfoldable pub status_legacy_get_error : ℤ → ℕ → Words → ℤ × ℕ
status_legacy_get_error mpi_success status m = (mpi_success, m (status + 4))
