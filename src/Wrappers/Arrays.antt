-- ===== src/Wrappers/Arrays.antt =====
-- What compressing and expanding an array of handles in place does to every word.
use uni_mpi.Base.{
  ℕ, zero, suc, ◌+◌, ◌-◌, ◌*◌, ◌==◌, ◌<◌, ◌≤◌, ◌≡◌, ◌≢◌, refl, arith, ◌∙◌, ap, ◌⊎◌, Bool-cases, inl,
  inr, ==_iff, sym,
}
use uni_mpi.Wrappers.{
  Words, write, sign_word, compress_rounds, reqs_compress_inplace, reqs_expand_inplace,
}

write_self : (at value : ℕ) (m : Words) → write at value m at ≡ value
write_self at value m = ground arith

pub write_other : (at value : ℕ) (m : Words) (a : ℕ) → a ≢ at → write at value m a ≡ m a
write_other at value m a h = ground arith

-- A word that no round writes.
compress_rounds_below :
    (k i reqs : ℕ) (m : Words) (a : ℕ) → a < reqs + i → compress_rounds k i reqs m a ≡ m a
unfolding compress_rounds
compress_rounds_below zero i reqs m a h = refl
compress_rounds_below (suc k) i reqs m a h =
    compress_rounds_below k (suc i) reqs (write (reqs + i) (m (reqs + 2 * i)) m) a (omega arith)
    ∙ write_other (reqs + i) (m (reqs + 2 * i)) m a (omega arith)

compress_rounds_above :
    (k i reqs : ℕ) (m : Words) (a : ℕ) → reqs + (i + k) ≤ a → compress_rounds k i reqs m a ≡ m a
unfolding compress_rounds
compress_rounds_above zero i reqs m a h = refl
compress_rounds_above (suc k) i reqs m a h =
    compress_rounds_above k (suc i) reqs (write (reqs + i) (m (reqs + 2 * i)) m) a (omega arith)
    ∙ write_other (reqs + i) (m (reqs + 2 * i)) m a (omega arith)

-- The rounds write behind what they still have to read.
compress_rounds_inside :
    (k i reqs j : ℕ) (m : Words)
    → 1 ≤ i
    → i ≤ j
    → j < i + k
    → compress_rounds k i reqs m (reqs + j) ≡ m (reqs + 2 * j)
unfolding compress_rounds
compress_rounds_inside zero i reqs j m pos_i lo hi = absurd (omega arith)
compress_rounds_inside (suc k) i reqs j m pos_i lo hi =
    let m1 = write (reqs + i) (m (reqs + 2 * i)) m in
    elim (Bool-cases (i == j)) [
      | inl same ↦
          let e : i ≡ j = (==_iff i j).0 same in
          rw (sym e) (
            compress_rounds_below k (suc i) reqs m1 (reqs + i) (omega arith)
            ∙ write_self (reqs + i) (m (reqs + 2 * i)) m)
      | inr other ↦
          let n : i ≢ j = ground (arith, ==_iff i j) in
          compress_rounds_inside k (suc i) reqs j m1 (omega arith) (omega arith) (omega arith)
          ∙ write_other (reqs + i) (m (reqs + 2 * i)) m (reqs + 2 * j) (omega arith)
    ]

-- After `reqs_compress_inplace` of `n` handles word `j` of the array is the low half of handle `j`,
-- and no word outside of the first `n` has changed.
pub compress_inside :
    (reqs n j : ℕ) (m : Words)
    → j < n
    → reqs_compress_inplace reqs n m (reqs + j) ≡ m (reqs + 2 * j)
unfolding reqs_compress_inplace
compress_inside reqs n zero m h = compress_rounds_below (n - 1) 1 reqs m (reqs + 0) (omega arith)
compress_inside reqs n (suc j) m h =
    compress_rounds_inside (n - 1) 1 reqs (suc j) m (omega arith) (omega arith) (omega arith)

expand_above : (reqs n a : ℕ) (m : Words) → reqs + 2 * n ≤ a → reqs_expand_inplace reqs n m a ≡ m a
unfolding reqs_expand_inplace
expand_above reqs zero a m h = refl
expand_above reqs (suc i) a m h =
    let value = m (reqs + i) in
    let m1 = write (reqs + 2 * i) value m in
    expand_above reqs i a (write (reqs + 2 * i + 1) (sign_word value) m1) (omega arith)
    ∙ (write_other (reqs + 2 * i + 1) (sign_word value) m1 a (omega arith)
        ∙ write_other (reqs + 2 * i) value m a (omega arith))

expand_below : (reqs n a : ℕ) (m : Words) → a < reqs → reqs_expand_inplace reqs n m a ≡ m a
unfolding reqs_expand_inplace
expand_below reqs zero a m h = refl
expand_below reqs (suc i) a m h =
    let value = m (reqs + i) in
    let m1 = write (reqs + 2 * i) value m in
    expand_below reqs i a (write (reqs + 2 * i + 1) (sign_word value) m1) h
    ∙ (write_other (reqs + 2 * i + 1) (sign_word value) m1 a (omega arith)
        ∙ write_other (reqs + 2 * i) value m a (omega arith))

-- No word outside of the array of `n` handles changes.
pub expand_outside :
    (reqs n a : ℕ) (m : Words)
    → (a < reqs) ⊎ (reqs + 2 * n ≤ a)
    → reqs_expand_inplace reqs n m a ≡ m a
expand_outside reqs n a m (inl h) = expand_below reqs n a m h
expand_outside reqs n a m (inr h) = expand_above reqs n a m h

-- After `reqs_expand_inplace` of `n` handles handle `j` is what word `j` was, extended by its sign.
pub expand_inside :
    (reqs n j : ℕ) (m : Words)
    → j < n
    → let m' = reqs_expand_inplace reqs n m in
      (m' (reqs + 2 * j) ≡ m (reqs + j)) × (m' (reqs + 2 * j + 1) ≡ sign_word (m (reqs + j)))
unfolding reqs_expand_inplace
expand_inside reqs zero j m h = absurd (omega arith)
expand_inside reqs (suc i) j m h =
    let value = m (reqs + i) in
    let m1 = write (reqs + 2 * i) value m in
    let m2 = write (reqs + 2 * i + 1) (sign_word value) m1 in
    elim (Bool-cases (j == i)) [
      | inl same ↦
          let e = (==_iff j i).0 same in
          rw e (
            expand_above reqs i (reqs + 2 * i) m2 (omega arith)
                ∙ (write_other (reqs + 2 * i + 1) (sign_word value) m1 (reqs + 2 * i) (omega arith)
                    ∙ write_self (reqs + 2 * i) value m),
            expand_above reqs i (reqs + 2 * i + 1) m2 (omega arith)
                ∙ write_self (reqs + 2 * i + 1) (sign_word value) m1,
          )
      | inr other ↦
          let below : j < i = ground (arith, ==_iff j i) in
          let kept : m2 (reqs + j) ≡ m (reqs + j) =
            write_other (reqs + 2 * i + 1) (sign_word value) m1 (reqs + j) (omega arith)
            ∙ write_other (reqs + 2 * i) value m (reqs + j) (omega arith) in
          let (low, high) = expand_inside reqs i j m2 below in
          (low ∙ kept, high ∙ ap sign_word kept)
    ]
