-- ===== src/PathMap/Longest.antt =====
-- The rule that a translation follows: the most specific root that covers the path.
use qcbridge.Prelude.{ℕ, ◌≤◌, ◌≡◌, Bool, Option, none, some, List, [], ◌∷◌, nat_eq, All, ◌⊎◌}
use qcbridge.PathMap.{
  Text, Os, PathMapping, Candidate, candidates, key_of, try_candidate, to_native,
}

-- One of the list.
pub data Among {ℓ} {A : Type ℓ} : A → List A → Type ℓ where
  here : {x : A} {xs : List A} → Among x (x ∷ xs)
  there : {x y : A} {xs : List A} → Among x xs → Among x (y ∷ xs)

-- `y` gives no result, or has a key that is not above `x`'s.
abbrev pub Yields {ℓ} : {A : Type ℓ} → (A → ℕ) → (A → Option Text) → A → A → Type 0
Yields key f x y = (f y ≡ none) ⊎ (key y ≤ key x)

-- What a loop over `xs` finds: nothing, or the result of one of them to which all others yield.
pub data Outcome {ℓ} {A : Type ℓ} (key : A → ℕ) (f : A → Option Text) (xs : List A)
    : Option Text → Type ℓ where
  unmatched : All (λ y. f y ≡ none) xs → Outcome key f xs none
  matched :
      {t : Text} (x : A)
      → Among x xs
      → f x ≡ some t
      → All (Yields key f x) xs
      → Outcome key f xs (some t)

module _ {ℓ} {A : Type ℓ} (key : A → ℕ) where
  abbrev Descending : List A → Type 0
  Descending [] = Unit
  Descending (y ∷ ys) = All (λ z. key z ≤ key y) ys × Descending ys

module _ (lower : Text → Text) (is_alpha : ℕ → Bool) (home : Text) (current : Os) where
  -- The result of a translation: the native spelling of the path when no candidate matches, and
  -- otherwise what a matching candidate makes of it.
  pub data Translated (source target : Os) (path : Text) (mappings : List PathMapping)
      : Text → Type 0 where
    native :
        All
          (λ c. try_candidate lower is_alpha home current source target path c ≡ none)
          (candidates source target mappings)
        → Translated source target path mappings (to_native path target)
    by_root :
        {t : Text} (c : Candidate)
        → Among c (candidates source target mappings)
        → try_candidate lower is_alpha home current source target path c ≡ some t
        → All
            (Yields key_of (try_candidate lower is_alpha home current source target path) c)
            (candidates source target mappings)
        → Translated source target path mappings t
