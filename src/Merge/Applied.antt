-- ===== src/Merge/Applied.antt =====
-- How far `fast_applied` gets: the end of the unbroken run of applied fast numbers, whatever the
-- order in which they were applied.
use qcbridge.Prelude.{
  ℕ, zero, suc, ◌+◌, ◌≤◌, ◌<◌, ◌≡◌, refl, true, false, some, List, [], ◌∷◌, ◌++◌, sym, arith, leb,
  nat_eq, length, Bool-cases, inl, inr,
}
use qcbridge.KeySet.{has, add, discard, has-add, has-discard, has-append}
use qcbridge.Merge.{LaneMerger, drain, fast_done, init}

-- `n` ends the unbroken run of `seen`, and `s` holds what `seen` has beyond it.
pub record Applied (seen : List ℕ) (n : ℕ) (s : List ℕ) : Type 0 where
  pub run : (k : ℕ) → 0 < k → k ≤ n → has seen k ≡ true
  pub beyond : (k : ℕ) → n < k → has s k ≡ has seen k
  pub stop : has seen (n + 1) ≡ false

Applied-same :
    (xs ys : List ℕ) (n : ℕ) (s : List ℕ)
    → ((k : ℕ) → has xs k ≡ has ys k)
    → Applied xs n s
    → Applied ys n s
Applied-same xs ys n s same h = record {
  run = λ k pos le. ground (arith, h.run k pos le, same k);
  beyond = λ k lt. ground (arith, h.beyond k lt, same k);
  stop = ground (arith, h.stop, same (n + 1));
}

Applied-unique : (xs : List ℕ) (n k : ℕ) (s t : List ℕ) → Applied xs n s → Applied xs k t → n ≡ k
Applied-unique xs n k s t h g = ground (arith, h.run (k + 1), g.run (n + 1), h.stop, g.stop)

has-middle : (x : ℕ) (xs ys : List ℕ) (k : ℕ) → has (xs ++ x ∷ ys) k ≡ has (x ∷ (xs ++ ys)) k
unfolding has
has-middle x xs ys k = ground (arith, has-append xs (x ∷ ys) k, has-append xs ys k)

has-append_nil : (xs : List ℕ) (k : ℕ) → has (xs ++ []) k ≡ has xs k
unfolding has
has-append_nil xs k = ground (arith, has-append xs [] k)

length-discard-le : (s : List ℕ) (k : ℕ) → length (discard s k) ≤ length s
unfolding discard
length-discard-le [] k = omega arith
length-discard-le (j ∷ s) k = ground (arith, length-discard-le s k)

length-discard-lt : (s : List ℕ) (k : ℕ) → has s k ≡ true → length (discard s k) < length s
unfolding has discard
length-discard-lt [] k h = absurd (ground arith)
length-discard-lt (j ∷ s) k h = ground (arith, length-discard-lt s k, length-discard-le s k)

empty-has : (s : List ℕ) (k : ℕ) → length s ≤ 0 → has s k ≡ false
unfolding has
empty-has [] k h = refl
empty-has (j ∷ s) k h = absurd (omega arith)

-- The loop ends by its test when the fuel is at least the size of the set.
drain-Applied :
    (fuel : ℕ) (seen : List ℕ) (n : ℕ) (s : List ℕ)
    → length s ≤ fuel
    → ((k : ℕ) → 0 < k → k ≤ n → has seen k ≡ true)
    → ((k : ℕ) → n < k → has s k ≡ has seen k)
    → Applied seen (drain fuel n s).0 (drain fuel n s).1
unfolding drain
drain-Applied zero seen n s small run beyond = record {
  run = run;
  beyond = beyond;
  stop = ground (arith, empty-has s (n + 1), beyond (n + 1) (omega arith));
}
drain-Applied (suc fuel) seen n s small run beyond = elim (Bool-cases (has s (n + 1))) [
  | inl more ↦ rw more (
      drain-Applied fuel seen (n + 1) (discard s (n + 1))
        (omega (arith, length-discard-lt s (n + 1) more))
        (λ k pos le. ground (arith, run k, beyond (n + 1)))
        (λ k lt. ground (arith, has-discard s (n + 1) k, beyond k)))
  | inr done ↦
      rw done (record { run = run; beyond = beyond; stop = ground (arith, beyond (n + 1)) })
]

-- One more applied message, in the order in which it comes.
module _ {ℓ} {A : Type ℓ} where
  abbrev IsApplied : List ℕ → LaneMerger A → Type 0
  IsApplied seen m = Applied seen m.fast_applied m.fast_done

  fast_done-IsApplied :
      (seen : List ℕ) (m : LaneMerger A) (seq : ℕ)
      → IsApplied seen m
      → IsApplied (seq ∷ seen) (fast_done m (some seq))
  unfolding fast_done has
  fast_done-IsApplied seen m seq h = elim (Bool-cases (leb seq m.fast_applied)) [
    | inl old ↦
        rw (old, fast_done)
          (record {
            run = λ k pos le. ground (arith, h.run k pos le);
            beyond = λ k lt. ground (arith, h.beyond k lt);
            stop = ground (arith, h.stop);
          })
    | inr new ↦
        rw (new, fast_done)
          (drain-Applied (length (add m.fast_done seq)) (seq ∷ seen) m.fast_applied
            (add m.fast_done seq) (omega arith) (λ k pos le. ground (arith, h.run k pos le))
            (λ k lt. ground (arith, has-add m.fast_done seq k, h.beyond k lt)))
  ]

  -- `fast_done` for each number, in the list's order.
  unfoldable pub fast_done_all : LaneMerger A → List ℕ → LaneMerger A
  unfolding fast_done
  fast_done_all m [] = m
  fast_done_all m (seq ∷ seqs) = fast_done_all (fast_done m (some seq)) seqs

  fast_done_all-IsApplied :
      (seen : List ℕ) (m : LaneMerger A) (seqs : List ℕ)
      → IsApplied seen m
      → IsApplied (seqs ++ seen) (fast_done_all m seqs)
  unfolding fast_done_all
  fast_done_all-IsApplied seen m [] h = h
  fast_done_all-IsApplied seen m (seq ∷ seqs) h =
      Applied-same (seqs ++ seq ∷ seen) (seq ∷ (seqs ++ seen)) _ _ (has-middle seq seqs seen) (
        fast_done_all-IsApplied (seq ∷ seen) (fast_done m (some seq)) seqs
          (fast_done-IsApplied seen m seq h))

module _ {ℓ} (A : Type ℓ) where
  -- From a fresh merger, whatever the order in which fast messages applied, and with repetitions:
  -- every number from 1 to `fast_applied` has applied, the next one has not, and the set kept
  -- beside it holds exactly the applied numbers beyond it.
  pub fast_done_all-Applied :
      (seqs : List ℕ)
      → Applied seqs
          (fast_done_all (init {A = A}) seqs).fast_applied
          (fast_done_all (init {A = A}) seqs).fast_done
  unfolding has
  fast_done_all-Applied seqs = Applied-same (seqs ++ []) seqs _ _ (has-append_nil seqs) (
      fast_done_all-IsApplied [] init seqs
        (record { run = λ k pos le. absurd (omega arith); beyond = λ k lt. refl; stop = refl }))

  -- Two orders of applying the same fast messages end at the same `fast_applied`.
  pub fast_applied_order :
      (xs ys : List ℕ)
      → ((k : ℕ) → has xs k ≡ has ys k)
      → (fast_done_all (init {A = A}) xs).fast_applied
        ≡ (fast_done_all (init {A = A}) ys).fast_applied
  fast_applied_order xs ys same =
      Applied-unique xs _ _ _ _ (fast_done_all-Applied xs)
        (Applied-same ys xs _ _ (λ k. sym (same k)) (fast_done_all-Applied ys))
