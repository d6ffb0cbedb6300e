-- ===== src/Debouncer.antt =====
-- qcbridge/ring1/classifier.py: the debounce of datablocks and the tier of an update. Times are
-- ticks, and `now - t >= window` is written as a sum.
use qcbridge.Prelude.{
  ℕ, ◌+◌, ◌≡◌, refl, ◌∙◌, Bool, false, Option, none, some, List, [], ◌∷◌, String, string_eq, leb,
  arith, if◌then◌else◌, length,
}
use qcbridge.Dict
use qcbridge.Dict.{keys, get-put, get-remove, has-keys}
use qcbridge.KeySet.{has, Distinct}
use qcbridge.DirtySet.{Tier, t1, t2}
use text.Mathlib.TextEquality.{eq_iff}

pub record Debouncer : Type 0 where
  pub window : ℕ
  pub touched : List (String × ℕ)

-- `__init__`
abbrev pub init : ℕ → Debouncer
init window = record { window = window; touched = [] }

unfoldable pub touch : Debouncer → String → ℕ → Debouncer
unfolding Dict.put
touch d uuid now = record d { touched = Dict.put d.touched uuid now }

-- `[u for u, t in self._touched.items() if now - t >= self._window]`
unfoldable pub due_of : ℕ → ℕ → List (String × ℕ) → List String
due_of window now [] = []
due_of window now ((uuid, t) ∷ rest) =
    let due = due_of window now rest in if leb (t + window) now then uuid ∷ due else due

-- `for uuid in due: del self._touched[uuid]`
unfoldable pub delete_all : List (String × ℕ) → List String → List (String × ℕ)
unfolding Dict.remove
delete_all touched [] = touched
delete_all touched (uuid ∷ due) = delete_all (Dict.remove touched uuid) due

unfoldable pub ready : Debouncer → ℕ → Debouncer × List String
unfolding due_of delete_all
ready d now =
    let due = due_of d.window now d.touched in
    (record d { touched = delete_all d.touched due }, due)

unfoldable pub discard_uuid : Debouncer → String → Debouncer
unfolding Dict.remove
discard_uuid d uuid = record d { touched = Dict.remove d.touched uuid }

-- `__len__`
unfoldable pub size : Debouncer → ℕ
size d = length d.touched

-- The tier of an update; the flag of the depsgraph is ignored.
unfoldable pub classify_update : Option String → Bool → Tier
classify_update none is_geometry = t2
classify_update (some type_key) is_geometry = t1

-- Whether a datablock touched then is left alone long enough.
abbrev pub is_due : ℕ → ℕ → Option ℕ → Bool
is_due window now none = false
is_due window now (some t) = leb (t + window) now

has-due_of :
    (window now : ℕ) (touched : List (String × ℕ)) (j : String)
    → Distinct (keys touched)
    → has (due_of window now touched) j ≡ is_due window now (Dict.get touched j)
unfolding due_of has Dict.get
has-due_of window now [] j d = refl
has-due_of window now ((u, t) ∷ rest) j d =
    ground (arith, has-due_of window now rest j d.1, has-keys rest u, eq_iff u j, d.0)

get-delete_all :
    (touched : List (String × ℕ)) (due : List String) (j : String)
    → Dict.get (delete_all touched due) j ≡ (if has due j then none else Dict.get touched j)
unfolding delete_all has
get-delete_all touched [] j = refl
get-delete_all touched (u ∷ due) j =
    get-delete_all (Dict.remove touched u) due j ∙ ground (arith, get-remove touched u j)

-- `ready` returns exactly the datablocks last touched a window ago or earlier, and forgets them
-- alone; every other one keeps its time. Each datablock has one time.
pub ready_lem :
    (d : Debouncer) (now : ℕ) (j : String)
    → Distinct (keys d.touched)
    → (has (ready d now).1 j ≡ is_due d.window now (Dict.get d.touched j))
      × (Dict.get (ready d now).0.touched j
          ≡ (if is_due d.window now (Dict.get d.touched j) then none else Dict.get d.touched j))
unfolding ready
ready_lem d now j distinct = (
  has-due_of d.window now d.touched j distinct,
  get-delete_all d.touched (due_of d.window now d.touched) j
      ∙ ground (arith, has-due_of d.window now d.touched j distinct),
)
