-- ===== src/Shadow/Diff.antt =====
-- A delta that is not structural carries the shadow to the snapshot, and a refused send is undone.
use qcbridge.Prelude.{
  Eq, ◌≡◌, refl, Bool, true, false, Option, none, some, List, [], ◌∷◌, String, string_eq,
  if◌then◌else◌, is_some, select, any, arith, Bool-cases, Option-cases, inl, inr,
}
use text.Mathlib.TextEquality.{eq_iff}
use qcbridge.Dict
use qcbridge.Dict.{keys, get-put, get-remove, has-keys}
use qcbridge.KeySet.{has, Distinct}
use qcbridge.Shadow.{
  Snapshot, Store, signature_entry, plain_entry, keys_within, same_keys, changed, diff,
  diff_and_update, get, restore,
}

module _ {ℓ} {V : Type ℓ} where
  -- The peer's writes, in order.
  unfoldable pub write_all : List (String × V) → List (String × V) → List (String × V)
  unfolding Dict.put
  write_all shadow [] = shadow
  write_all shadow ((path, value) ∷ cs) = write_all (Dict.put shadow path value) cs

  get-write_all :
      (cs shadow : List (String × V)) (j : String)
      → Distinct (keys cs)
      → Dict.get (write_all shadow cs) j
        ≡ elim (Dict.get cs j) [ some v ↦ some v | none ↦ Dict.get shadow j ]
  unfolding write_all has Dict.get
  get-write_all [] shadow j d = refl
  get-write_all ((path, value) ∷ cs) shadow j d = ground (
    arith,
    get-write_all cs (Dict.put shadow path value) j d.1,
    get-put shadow path value j,
    has-keys cs path,
    eq_iff path j,
  )

  has-select-keys :
      (p : String × V → Bool) (cs : List (String × V)) (j : String)
      → has (keys cs) j ≡ false
      → has (keys (select p cs)) j ≡ false
  unfolding has
  has-select-keys p [] j h = h
  has-select-keys p ((path, value) ∷ cs) j h = ground (arith, has-select-keys p cs j)

  Distinct-select :
      (p : String × V → Bool) (cs : List (String × V))
      → Distinct (keys cs)
      → Distinct (keys (select p cs))
  Distinct-select p [] d = d
  Distinct-select p ((path, value) ∷ cs) d = elim (Bool-cases (p (path, value))) [
    | inl keep ↦ rw keep (has-select-keys p cs path d.0, Distinct-select p cs d.1)
    | inr skip ↦ rw skip (Distinct-select p cs d.1)
  ]

  keep_if : (String × V → Bool) → String → Option V → Option V
  keep_if p j none = none
  keep_if p j (some v) = if p (j, v) then some v else none

  get-select :
      (p : String × V → Bool) (cs : List (String × V)) (j : String)
      → Distinct (keys cs)
      → Dict.get (select p cs) j ≡ keep_if p j (Dict.get cs j)
  unfolding has Dict.get keep_if
  get-select p [] j d = refl
  get-select p ((path, value) ∷ cs) j d =
      ground
        (arith, get-select p cs j d.1, has-keys cs path, eq_iff path j, has-select-keys p cs path)

  keys_within-get :
      (a b : List (String × V)) (j : String)
      → keys_within a b ≡ true
      → is_some (Dict.get a j) ≡ true
      → is_some (Dict.get b j) ≡ true
  unfolding keys_within Dict.get
  keys_within-get [] b j h g = cc
  keys_within-get ((k, v) ∷ a) b j h g = ground (arith, keys_within-get a b j, eq_iff k j)

  select_plain :
      (cs : List (String × V)) → any signature_entry cs ≡ false → select plain_entry cs ≡ cs
  unfolding signature_entry plain_entry
  select_plain [] h = refl
  select_plain ((path, value) ∷ cs) h = ground (arith, select_plain cs)

module _ {ℓ} {V : Type ℓ} ⦃e : Eq V⦄ where
  written :
      (shadow snapshot : List (String × V)) (j : String)
      → same_keys shadow snapshot ≡ true
      → elim (keep_if (changed shadow) j (Dict.get snapshot j)) [
        | some v ↦ some v
        | none ↦ Dict.get shadow j
      ]
        ≡ Dict.get snapshot j
  unfolding changed same_keys keep_if
  written shadow snapshot j same = elim (Option-cases (Dict.get snapshot j)) [
    | inl gone ↦ ground (arith, keys_within-get shadow snapshot j)
    | inr (v, there) ↦ elim (Option-cases (Dict.get shadow j)) [
      | inl new ↦ ground arith
      | inr (old, had) ↦ ground (arith, e.beq_iff old v)
    ]
  ]

  -- If a delta is not structural, writing its changes into the old shadow, in any snapshot with
  -- one value a path, gives every path the value that it has in the snapshot.
  pub diff-write_all :
      (shadow snapshot : List (String × V)) (j : String)
      → Distinct (keys snapshot)
      → (diff shadow snapshot).structural ≡ false
      → Dict.get (write_all shadow (diff shadow snapshot).changes) j ≡ Dict.get snapshot j
  unfolding diff
  diff-write_all shadow snapshot j d plain =
      let cs = select (changed shadow) snapshot in
      let quiet : any signature_entry cs ≡ false = ground arith in
      let same : same_keys shadow snapshot ≡ true = ground arith in
      rw
        (
          select_plain cs quiet,
          get-write_all cs shadow j (Distinct-select (changed shadow) snapshot d),
          get-select (changed shadow) snapshot j d,
        )
        (written shadow snapshot j same)

  -- A snapshot that a dictionary agrees with.
  abbrev Holds : List (String × V) → List (String × V) → Type ℓ
  Holds s [] = Unit
  Holds s ((k, v) ∷ xs) = (Dict.get s k ≡ some v) × Holds s xs

  Holds-cons :
      (s xs : List (String × V)) (k : String) (w : V)
      → has (keys xs) k ≡ false
      → Holds s xs
      → Holds ((k, w) ∷ s) xs
  unfolding has Dict.get
  Holds-cons s [] k w h g = tt
  Holds-cons s ((j, v) ∷ xs) k w h g =
      (ground (arith, eq_iff k j, eq_iff j k, g.0), Holds-cons s xs k w (ground arith) g.1)

  Holds-refl : (s : List (String × V)) → Distinct (keys s) → Holds s s
  unfolding Dict.get
  Holds-refl [] d = tt
  Holds-refl ((k, v) ∷ s) d =
      (ground (arith, eq_iff k k), Holds-cons s s k v d.0 (Holds-refl s d.1))

  none_changed : (s xs : List (String × V)) → Holds s xs → select (changed s) xs ≡ []
  unfolding changed
  none_changed s [] h = refl
  none_changed s ((k, v) ∷ xs) h = ground (arith, none_changed s xs h.1, h.0, e.beq_iff v v)

  within : (s xs : List (String × V)) → Holds s xs → keys_within xs s ≡ true
  unfolding keys_within
  within s [] h = refl
  within s ((k, v) ∷ xs) h = ground (arith, within s xs h.1, h.0)

  -- An unchanged snapshot, with one value a path, gives an empty delta.
  pub diff_same :
      (s : List (String × V))
      → Distinct (keys s)
      → diff s s ≡ record { changes = []; structural = false }
  unfolding diff same_keys
  diff_same s d = let h = Holds-refl s d in ground (arith, none_changed s s h, within s s h)

  -- Putting back what `get` returned before a diff whose delta never left gives every uuid the
  -- shadow that it had, so the next diff finds the same changes again.
  pub restore-diff_and_update :
      (store : Store V) (uuid : String) (snapshot : Snapshot V) (j : String)
      → get (restore (diff_and_update store uuid snapshot).0 uuid (get store uuid)) j ≡ get store j
  unfolding get restore diff_and_update
  restore-diff_and_update store uuid snapshot j = elim (Option-cases (Dict.get store uuid)) [
    | inl first ↦ ground (
      arith,
      get-remove (Dict.put store uuid snapshot) uuid j,
      get-put store uuid snapshot j,
      eq_iff uuid j,
    )
    | inr (old, had) ↦ ground (
      arith,
      get-put (Dict.put store uuid snapshot) uuid old j,
      get-put store uuid snapshot j,
      eq_iff uuid j,
    )
  ]
