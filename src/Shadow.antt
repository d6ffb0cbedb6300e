-- ===== src/Shadow.antt =====
-- `ShadowStore` of qcbridge/ring1/shadow.py: what the peer is believed to hold, path by path. A
-- value is of a type `V` with an equality; a snapshot is a dictionary from paths.
pub mod Tracked
pub mod Diff
use text.Mathlib.Text.{starts_with}
use qcbridge.Prelude.{
  ℕ, length, Eq, Bool, true, false, not, ◌&&◌, ◌||◌, Option, none, some, List, [], ◌∷◌, String,
  string_eq, ◌==◌, if◌then◌else◌, is_some, select, any, all,
}
use qcbridge.Dict

pub record Delta {ℓ} (V : Type ℓ) : Type ℓ where
  pub changes : List (String × V)
  pub structural : Bool

-- `path.startswith("~")`
unfoldable pub is_signature : String → Bool
is_signature path = starts_with path "~"

abbrev pub Snapshot {ℓ} : Type ℓ → Type ℓ
Snapshot V = List (String × V)

-- `_shadows`
abbrev pub Store {ℓ} : Type ℓ → Type ℓ
Store V = List (String × Snapshot V)

module _ {ℓ} {V : Type ℓ} where
  unfoldable pub signature_entry : String × V → Bool
  unfolding is_signature
  signature_entry (path, value) = is_signature path

  unfoldable pub plain_entry : String × V → Bool
  unfolding is_signature
  plain_entry (path, value) = not (is_signature path)

  -- Every key of `a` is a key of `b`.
  unfoldable pub keys_within : Snapshot V → Snapshot V → Bool
  unfolding Dict.get
  keys_within [] b = true
  keys_within ((k, v) ∷ a) b = is_some (Dict.get b k) && keys_within a b

  -- `a.keys() == b.keys()`
  unfoldable pub same_keys : Snapshot V → Snapshot V → Bool
  unfolding keys_within
  same_keys a b = keys_within a b && keys_within b a

module _ {ℓ} {V : Type ℓ} ⦃e : Eq V⦄ where
  -- `shadow.get(path, _MISSING) != value`
  unfoldable pub changed : List (String × V) → String × V → Bool
  unfolding Dict.get
  changed shadow (path, value) = elim (Dict.get shadow path) [
    | none ↦ true
    | some old ↦ not (old == value)
  ]

  -- The part of `diff_and_update` after the first contact.
  unfoldable pub diff : List (String × V) → List (String × V) → Delta V
  unfolding changed same_keys signature_entry plain_entry
  diff shadow snapshot =
      let changes = select (changed shadow) snapshot in
      record {
        changes = select plain_entry changes;
        structural = not (same_keys shadow snapshot) || any signature_entry changes;
      }

  unfoldable pub diff_and_update : Store V → String → Snapshot V → Store V × Option (Delta V)
  unfolding diff Dict.get Dict.put
  diff_and_update store uuid snapshot = (
    Dict.put store uuid snapshot,
    elim (Dict.get store uuid) [ none ↦ none | some shadow ↦ some (diff shadow snapshot) ],
  )

module _ {ℓ} {V : Type ℓ} where
  unfoldable pub forget : Store V → String → Store V
  unfolding Dict.remove
  forget store uuid = Dict.remove store uuid

  unfoldable pub get : Store V → String → Option (Snapshot V)
  unfolding Dict.get
  get store uuid = Dict.get store uuid

  unfoldable pub restore : Store V → String → Option (Snapshot V) → Store V
  unfolding Dict.remove Dict.put
  restore store uuid none = Dict.remove store uuid
  restore store uuid (some old) = Dict.put store uuid old

  unfoldable pub known : Store V → String → Bool
  unfolding Dict.get
  known store uuid = is_some (Dict.get store uuid)

  -- `__len__`
  unfoldable pub size : Store V → ℕ
  size store = length store
