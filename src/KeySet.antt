-- ===== src/KeySet.antt =====
-- Python's `set` as a list of keys. The program never depends on the order of a set's elements, and
-- the laws speak of membership.
use qcbridge.Prelude.{
  Eq, Bool, false, not, ◌&&◌, ◌||◌, ◌==◌, ◌≡◌, refl, List, [], ◌∷◌, ◌++◌, arith, if◌then◌else◌,
  select,
}

module _ {ℓ} {K : Type ℓ} ⦃e : Eq K⦄ where
  -- `k in s`
  unfoldable pub has : List K → K → Bool
  has [] k = false
  has (j ∷ s) k = (j == k) || has s k

  -- `s.add(k)`
  unfoldable pub add : List K → K → List K
  unfolding has
  add s k = if has s k then s else k ∷ s

  -- `s.discard(k)`
  unfoldable pub discard : List K → K → List K
  discard [] k = []
  discard (j ∷ s) k = let rest = discard s k in if j == k then rest else j ∷ rest

  -- `set(xs)`
  unfoldable pub to_set : List K → List K
  unfolding add
  to_set [] = []
  to_set (x ∷ xs) = add (to_set xs) x

  -- `s - t`
  unfoldable pub minus : List K → List K → List K
  unfolding has
  minus s t = select (λ k. not (has t k)) s

  -- No element twice.
  abbrev pub Distinct : List K → Type 0
  Distinct [] = Unit
  Distinct (k ∷ s) = (has s k ≡ false) × Distinct s

module _ {ℓ} {K : Type ℓ} ⦃e : Eq K⦄ where
  pub has-add : (s : List K) (k j : K) → has (add s k) j ≡ ((k == j) || has s j)
  unfolding has add
  has-add s k j = ground (arith, e.beq_iff k j)

  pub add-new : (s : List K) (k : K) → has s k ≡ false → add s k ≡ k ∷ s
  unfolding add
  add-new s k h = rw h

  pub has-discard : (s : List K) (k j : K) → has (discard s k) j ≡ (not (k == j) && has s j)
  unfolding has discard
  has-discard [] k j = ground arith
  has-discard (i ∷ s) k j =
      ground (arith, has-discard s k j, e.beq_iff i k, e.beq_iff i j, e.beq_iff k j)

  pub has-to_set : (xs : List K) (j : K) → has (to_set xs) j ≡ has xs j
  unfolding has to_set
  has-to_set [] j = refl
  has-to_set (x ∷ xs) j = rw (has-add (to_set xs) x j, has-to_set xs j)

  pub has-append : (s t : List K) (j : K) → has (s ++ t) j ≡ (has s j || has t j)
  unfolding has
  has-append [] t j = refl
  has-append (i ∷ s) t j = ground (arith, has-append s t j)

  pub has-select : (p : K → Bool) (s : List K) (j : K) → has (select p s) j ≡ (p j && has s j)
  unfolding has
  has-select p [] j = ground arith
  has-select p (i ∷ s) j = ground (arith, has-select p s j, e.beq_iff i j)

  pub has-minus : (s t : List K) (j : K) → has (minus s t) j ≡ (not (has t j) && has s j)
  unfolding minus
  has-minus s t j = has-select (λ k. not (has t k)) s j

pub ruleset set_laws = (has-add, has-discard, has-to_set, has-append, has-minus)
