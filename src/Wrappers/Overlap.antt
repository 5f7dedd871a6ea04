-- ===== src/Wrappers/Overlap.antt =====
-- The areas of `memcpy` in `statuses_expand_inplace` overlap for the first few statuses, where
-- `memcpy` promises nothing.
use uni_mpi.Base.{
  ℕ, zero, suc, ◌+◌, ◌*◌, ◌<◌, ◌≤◌, ◌≡◌, refl, arith, ◌∙◌, ◌⊎◌, inl, inr, ap, ◌≢◌, Bool-cases, ◌==◌,
  ==_iff,
}
use uni_mpi.Wrappers.{Words, write}
use uni_mpi.Wrappers.Arrays.{write_other}
use uni_mpi.Wrappers.Statuses.{Copy, statuses_expand_inplace}
use uni_mpi.Wrappers.Completion.{IsMemcpy}

-- A `memcpy` that goes from the first word up.
abbrev copy_words : ℕ → Copy
copy_words zero to from m = m
copy_words (suc k) to from m = copy_words k (suc to) (suc from) (write to (m from) m)

abbrev pub copy_upwards : Copy
copy_upwards = copy_words 5

write_at : (at value : ℕ) (m : Words) (a : ℕ) → a ≡ at → write at value m a ≡ value
write_at at value m a h = ground (arith, h)

copy_words_outside :
    (k to from a : ℕ) (m : Words) → (a < to) ⊎ (to + k ≤ a) → copy_words k to from m a ≡ m a
copy_words_outside zero to from a m h = refl
copy_words_outside (suc k) to from a m (inl h) =
    copy_words_outside k (suc to) (suc from) a (write to (m from) m) (inl (omega arith))
    ∙ write_other to (m from) m a (omega arith)
copy_words_outside (suc k) to from a m (inr h) =
    copy_words_outside k (suc to) (suc from) a (write to (m from) m) (inr (omega arith))
    ∙ write_other to (m from) m a (omega arith)

copy_words_inside :
    (k to from j : ℕ) (m : Words)
    → (to + k ≤ from) ⊎ (from + k ≤ to)
    → j < k
    → copy_words k to from m (to + j) ≡ m (from + j)
copy_words_inside zero to from j m apart h = absurd (omega arith)
copy_words_inside (suc k) to from zero m apart h =
    let m1 = write to (m from) m in
    copy_words_outside k (suc to) (suc from) (to + 0) m1 (inl (omega arith))
    ∙ write_at to (m from) m (to + 0) (omega arith)
    ∙ ap m (omega arith)
copy_words_inside (suc k) to from (suc j) m (inl apart) h =
    let m1 = write to (m from) m in
    ap (copy_words k (suc to) (suc from) m1) (omega arith)
    ∙ copy_words_inside k (suc to) (suc from) j m1 (inl (omega arith)) (omega arith)
    ∙ write_other to (m from) m (suc from + j) (omega arith)
    ∙ ap m (omega arith)
copy_words_inside (suc k) to from (suc j) m (inr apart) h =
    let m1 = write to (m from) m in
    ap (copy_words k (suc to) (suc from) m1) (omega arith)
    ∙ copy_words_inside k (suc to) (suc from) j m1 (inr (omega arith)) (omega arith)
    ∙ write_other to (m from) m (suc from + j) (omega arith)
    ∙ ap m (omega arith)

copy_upwards-IsMemcpy : IsMemcpy copy_upwards
copy_upwards-IsMemcpy to from apart m = (
  λ k h. copy_words_inside 5 to from k m apart h,
  λ a h. copy_words_outside 5 to from a m (inl h),
  λ a h. copy_words_outside 5 to from a m (inr h),
)

-- One word up: every word that is written is the first one read.
copy_one_up :
    (k to from a : ℕ) (m : Words)
    → to ≡ suc from
    → to ≤ a
    → a < to + k
    → copy_words k to from m a ≡ m from
copy_one_up zero to from a m next lo hi = absurd (omega arith)
copy_one_up (suc k) to from a m next lo hi =
    let m1 = write to (m from) m in
    elim (Bool-cases (a == to)) [
      | inl same ↦
          let e = (==_iff a to).0 same in
          copy_words_outside k (suc to) (suc from) a m1 (inl (omega arith))
          ∙ write_at to (m from) m a e
      | inr other ↦
          let n : a ≢ to = ground (arith, ==_iff a to) in
          copy_one_up k (suc to) (suc from) a m1 (omega arith) (omega arith) (omega arith)
          ∙ write_at to (m from) m (suc from) (omega arith)
    ]

overlap_spoils :
    (statuses n : ℕ) (m : Words)
    → statuses_expand_inplace copy_upwards statuses (suc (suc n)) m (statuses + 6 + 2)
      ≡ m (statuses + 5)
unfolding statuses_expand_inplace
overlap_spoils statuses zero m =
    let m1 = copy_upwards (statuses + 6 * 1) (statuses + 5 * 1) m in
    copy_words_outside 5 (statuses + 6 * 0) (statuses + 5 * 0) (statuses + 6 + 2) m1
      (inr (omega arith))
    ∙ copy_one_up 5 (statuses + 6 * 1) (statuses + 5 * 1) (statuses + 6 + 2) m (omega arith)
        (omega arith) (omega arith)
overlap_spoils statuses (suc n) m =
    let to = statuses + 6 * suc (suc n) in
    overlap_spoils statuses n (copy_upwards to (statuses + 5 * suc (suc n)) m)
    ∙ copy_words_outside 5 to (statuses + 5 * suc (suc n)) (statuses + 5) m (inl (omega arith))

-- What `memcpy` promises, which is nothing for areas that overlap, is not enough for
-- `statuses_expand_inplace`: a `memcpy` that copies from the first word up keeps that promise, and
-- with it an array of two or more statuses has, where UniMPI's accessor reads the source of
-- status 1, the low word of the count that the library has written in its status 1.
pub IsMemcpy-overlap :
    (statuses n : ℕ) (m : Words)
    → 2 ≤ n
    → IsMemcpy copy_upwards
      × (statuses_expand_inplace copy_upwards statuses n m (statuses + 6 + 2) ≡ m (statuses + 5))
IsMemcpy-overlap statuses zero m h = absurd (omega arith)
IsMemcpy-overlap statuses (suc zero) m h = absurd (omega arith)
IsMemcpy-overlap statuses (suc (suc n)) m h = (copy_upwards-IsMemcpy, overlap_spoils statuses n m)
