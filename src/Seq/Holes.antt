-- ===== src/Seq/Holes.antt =====
-- What `first_missing` says of a lane whose numbers grow.
use qcbridge.Prelude.{
  ℕ, ◌+◌, ◌≤◌, ◌<◌, ◌≡◌, refl, true, false, Option, none, some, List, [], ◌∷◌, arith, eqb, nat_eq,
  Bool-cases, inl, inr,
}
use qcbridge.KeySet.{has}
use qcbridge.Seq.{SeqTracker, observe, observe_all}

-- Each number is above the one before it, the first above `l`.
abbrev pub Increasing : ℕ → List ℕ → Type 0
Increasing l [] = Unit
Increasing l (x ∷ xs) = (l < x) × Increasing x xs

-- The last number of the stream that follows `l`.
abbrev pub newest : ℕ → List ℕ → ℕ
newest l [] = l
newest l (x ∷ xs) = newest x xs

-- `none`: every number from `l` to the newest arrived. `some m`: `m` is the first that did not.
abbrev pub Hole : ℕ → Option ℕ → List ℕ → Type 0
Hole l none seqs = (k : ℕ) → l < k → k ≤ newest l seqs → has seqs k ≡ true
Hole l (some m) seqs =
    (l < m)
    × (m < newest l seqs)
    × (has seqs m ≡ false)
    × ((k : ℕ) → l < k → k < m → has seqs k ≡ true)

Increasing-newest : (l : ℕ) (seqs : List ℕ) → Increasing l seqs → l ≤ newest l seqs
Increasing-newest l [] h = omega arith
Increasing-newest l (x ∷ xs) h = omega (arith, Increasing-newest x xs h.1)

has_below : (l k : ℕ) (seqs : List ℕ) → Increasing l seqs → k ≤ l → has seqs k ≡ false
unfolding has
has_below l k [] h le = refl
has_below l k (x ∷ xs) h le = ground (arith, has_below x k xs h.1)

first_missing_stays :
    (t : SeqTracker) (m : ℕ) (seqs : List ℕ)
    → t.first_missing ≡ some m
    → (observe_all t seqs).first_missing ≡ some m
unfolding observe_all
first_missing_stays t m [] h = h
first_missing_stays t m (x ∷ xs) h = first_missing_stays (observe t x).0 m xs (ground arith)

last_seen-observe :
    (t : SeqTracker) (l x : ℕ) → t.last_seen ≡ some l → l < x → (observe t x).0.last_seen ≡ some x
unfolding observe
last_seen-observe t l x e h = ground arith

last_seen-observe_all :
    (t : SeqTracker) (l : ℕ) (seqs : List ℕ)
    → t.last_seen ≡ some l
    → Increasing l seqs
    → (observe_all t seqs).last_seen ≡ some (newest l seqs)
unfolding observe_all
last_seen-observe_all t l [] e h = e
last_seen-observe_all t l (x ∷ xs) e h =
    last_seen-observe_all (observe t x).0 x xs (last_seen-observe t l x e h.0) h.1

Hole-next : (l : ℕ) (f : Option ℕ) (xs : List ℕ) → Hole (l + 1) f xs → Hole l f ((l + 1) ∷ xs)
unfolding has
Hole-next l none xs h = λ k lt le. ground (arith, h k)
Hole-next l (some m) xs h = (omega arith, h.1, ground arith, λ k lt le. ground (arith, h.3 k))

Hole-skip : (l x : ℕ) (xs : List ℕ) → l + 1 < x → Increasing x xs → Hole l (some (l + 1)) (x ∷ xs)
unfolding has
Hole-skip l x xs lt h = (
  omega arith,
  omega (arith, Increasing-newest x xs h),
  ground (arith, has_below x (l + 1) xs h),
  λ k p q. absurd (omega arith),
)

first_missing-observe_next :
    (t : SeqTracker) (l : ℕ)
    → t.last_seen ≡ some l
    → t.first_missing ≡ none
    → (observe t (l + 1)).0.first_missing ≡ none
unfolding observe
first_missing-observe_next t l e n = ground arith

first_missing-observe_skip :
    (t : SeqTracker) (l x : ℕ)
    → t.last_seen ≡ some l
    → t.first_missing ≡ none
    → l + 1 < x
    → (observe t x).0.first_missing ≡ some (l + 1)
unfolding observe
first_missing-observe_skip t l x e n h = ground arith

first_missing-observe_all :
    (t : SeqTracker) (l x : ℕ) (xs : List ℕ)
    → t.last_seen ≡ some l
    → t.first_missing ≡ none
    → l + 1 < x
    → (observe_all (observe t x).0 xs).first_missing ≡ some (l + 1)
first_missing-observe_all t l x xs e n jump =
    first_missing_stays (observe t x).0 (l + 1) xs (first_missing-observe_skip t l x e n jump)

-- From a lane at `l` with no open hole, any growing stream leaves `first_missing` at the first
-- number above `l` that did not arrive before the newest, or at none when all of them arrived.
pub first_missing-Hole :
    (t : SeqTracker) (l : ℕ) (seqs : List ℕ)
    → t.last_seen ≡ some l
    → t.first_missing ≡ none
    → Increasing l seqs
    → Hole l (observe_all t seqs).first_missing seqs
unfolding observe_all
first_missing-Hole t l [] e n h = rw n (λ k lt le. absurd (omega arith))
first_missing-Hole t l (x ∷ xs) e n h = elim (Bool-cases (eqb x (l + 1))) [
  | inl same ↦
      let next : x ≡ l + 1 = ground arith in
      rw next (
        Hole-next l _ xs (
          first_missing-Hole (observe t (l + 1)).0 (l + 1) xs
            (last_seen-observe t l (l + 1) e (omega arith)) (first_missing-observe_next t l e n)
            (rw next at h.1)))
  | inr other ↦
      let jump : l + 1 < x = ground (arith, h.0) in
      rw (first_missing-observe_all t l x xs e n jump) (Hole-skip l x xs jump h.1)
]
