-- ===== src/Dict.antt =====
-- Python's `dict` as the program uses it: an assignment to a key that is there keeps its place, a
-- new key goes to the end, and iteration is in that order.
use qcbridge.Prelude.{
  Eq, ◌==◌, ◌≡◌, refl, ◌∙◌, ==_refl, Option, none, some, List, [], ◌∷◌, arith, if◌then◌else◌,
  is_some, Bool-cases, inl, inr,
}
use qcbridge.KeySet.{has, Distinct}

module _ {ℓ κ} {K : Type ℓ} {V : Type κ} ⦃e : Eq K⦄ where
  -- `d.get(k)`
  unfoldable pub get : List (K × V) → K → Option V
  get [] k = none
  get ((j, v) ∷ d) k = if j == k then some v else get d k

  -- `d[k] = v`
  unfoldable pub put : List (K × V) → K → V → List (K × V)
  put [] k v = (k, v) ∷ []
  put ((j, w) ∷ d) k v = if j == k then (j, v) ∷ d else (j, w) ∷ put d k v

  -- `d.pop(k, None)`, `del d[k]`
  unfoldable pub remove : List (K × V) → K → List (K × V)
  remove [] k = []
  remove ((j, w) ∷ d) k = let rest = remove d k in if j == k then rest else (j, w) ∷ rest

module _ {ℓ κ} {K : Type ℓ} {V : Type κ} where
  abbrev pub keys : List (K × V) → List K
  keys [] = []
  keys ((k, v) ∷ d) = k ∷ keys d

module _ {ℓ κ} {K : Type ℓ} {V : Type κ} ⦃e : Eq K⦄ where
  pub get-put :
      (d : List (K × V)) (k : K) (v : V) (j : K)
      → get (put d k v) j ≡ (if k == j then some v else get d j)
  unfolding get put
  get-put [] k v j = refl
  get-put ((i, w) ∷ d) k v j =
      ground (arith, get-put d k v j, e.beq_iff i k, e.beq_iff i j, e.beq_iff k j)

  pub get-put_self : (d : List (K × V)) (k : K) (v : V) → get (put d k v) k ≡ some v
  get-put_self d k v = get-put d k v k ∙ rw ==_refl

  pub get-remove :
      (d : List (K × V)) (k j : K) → get (remove d k) j ≡ (if k == j then none else get d j)
  unfolding get remove
  get-remove [] k j = ground arith
  get-remove ((i, w) ∷ d) k j =
      ground (arith, get-remove d k j, e.beq_iff i k, e.beq_iff i j, e.beq_iff k j)

  pub has-keys : (d : List (K × V)) (k : K) → has (keys d) k ≡ is_some (get d k)
  unfolding get has
  has-keys [] k = refl
  has-keys ((i, w) ∷ d) k = ground (arith, has-keys d k)

  pub Distinct-put :
      (d : List (K × V)) (k : K) (v : V) → Distinct (keys d) → Distinct (keys (put d k v))
  unfolding put get has
  Distinct-put [] k v h = ground arith
  Distinct-put ((i, w) ∷ d) k v h = elim (Bool-cases (i == k)) [
    | inl same ↦ rw same h
    | inr other ↦ rw other (
      ground (
        arith,
        has-keys (put d k v) i,
        has-keys d i,
        get-put d k v i,
        e.beq_iff i k,
        e.beq_iff k i,
      ),
      Distinct-put d k v h.1,
    )
  ]

  pub Distinct-remove :
      (d : List (K × V)) (k : K) → Distinct (keys d) → Distinct (keys (remove d k))
  unfolding remove has
  Distinct-remove [] k h = h
  Distinct-remove ((i, w) ∷ d) k h = elim (Bool-cases (i == k)) [
    | inl same ↦ rw same (Distinct-remove d k h.1)
    | inr other ↦ rw other (
      ground (arith, has-keys (remove d k) i, has-keys d i, get-remove d k i),
      Distinct-remove d k h.1,
    )
  ]

pub ruleset dict_laws = (get-put, get-remove)
