-- ===== src/Sorting.antt =====
-- `sorted` on texts: Python compares them by code points, the first difference deciding.
use Prim.Native.Char.{code}
use qcbridge.Prelude.{
  ℕ, ◌≡◌, refl, Bool, true, false, ◌&&◌, ◌||◌, List, [], ◌∷◌, String, string_eq, ◌==◌, arith, ltb,
  eqb, if◌then◌else◌,
}
use text.Mathlib.TextEquality.{eq_iff}
use qcbridge.KeySet.{has, Distinct}

abbrev pub codes : String → List ℕ
codes String.[] = []
codes (String.◌∷◌ c s) = code c ∷ codes s

unfoldable pub lex_leb : List ℕ → List ℕ → Bool
lex_leb [] ys = true
lex_leb (x ∷ xs) [] = false
lex_leb (x ∷ xs) (y ∷ ys) = ltb x y || eqb x y && lex_leb xs ys

-- `s <= t`
unfoldable pub str_leb : String → String → Bool
unfolding lex_leb
str_leb s t = lex_leb (codes s) (codes t)

unfoldable pub insert_sorted : String → List String → List String
unfolding str_leb
insert_sorted s [] = s ∷ []
insert_sorted s (t ∷ ts) = if str_leb s t then s ∷ t ∷ ts else t ∷ insert_sorted s ts

unfoldable pub sorted : List String → List String
unfolding insert_sorted
sorted [] = []
sorted (s ∷ ss) = insert_sorted s (sorted ss)

-- Each text is at most the next one.
abbrev pub IsSorted : List String → Type 0
IsSorted [] = Unit
IsSorted (s ∷ []) = Unit
IsSorted (s ∷ t ∷ ts) = (str_leb s t ≡ true) × IsSorted (t ∷ ts)

lex_leb_total : (xs ys : List ℕ) → lex_leb xs ys ≡ false → lex_leb ys xs ≡ true
unfolding lex_leb
lex_leb_total [] ys h = absurd (ground arith)
lex_leb_total (x ∷ xs) [] h = refl
lex_leb_total (x ∷ xs) (y ∷ ys) h = ground (arith, lex_leb_total xs ys)

str_leb_total : (s t : String) → str_leb s t ≡ false → str_leb t s ≡ true
unfolding str_leb
str_leb_total s t h = lex_leb_total (codes s) (codes t) h

insert_sorted-IsSorted_after :
    (u s : String) (ts : List String)
    → str_leb u s ≡ true
    → IsSorted (u ∷ ts)
    → IsSorted (insert_sorted s ts)
    → IsSorted (u ∷ insert_sorted s ts)
unfolding insert_sorted
insert_sorted-IsSorted_after u s [] le h g = (le, tt)
insert_sorted-IsSorted_after u s (t ∷ ts) le h g = ground arith

insert_sorted-IsSorted :
    (s : String) (ts : List String) → IsSorted ts → IsSorted (insert_sorted s ts)
unfolding insert_sorted
insert_sorted-IsSorted s [] h = tt
insert_sorted-IsSorted s (t ∷ []) h = ground (arith, str_leb_total s t)
insert_sorted-IsSorted s (t ∷ u ∷ ts) h =
    ground (arith, str_leb_total s t, insert_sorted-IsSorted s (u ∷ ts) h.1)

pub sorted-IsSorted : (ss : List String) → IsSorted (sorted ss)
unfolding sorted
sorted-IsSorted [] = tt
sorted-IsSorted (s ∷ ss) = insert_sorted-IsSorted s (sorted ss) (sorted-IsSorted ss)

has-insert_sorted :
    (s : String) (ts : List String) (j : String)
    → has (insert_sorted s ts) j ≡ ((s == j) || has ts j)
unfolding insert_sorted has
has-insert_sorted s [] j = refl
has-insert_sorted s (t ∷ ts) j = ground (arith, has-insert_sorted s ts j)

pub has-sorted : (ss : List String) (j : String) → has (sorted ss) j ≡ has ss j
unfolding sorted has
has-sorted [] j = refl
has-sorted (s ∷ ss) j = ground (arith, has-insert_sorted s (sorted ss) j, has-sorted ss j)

has-insert_sorted-false :
    (s : String) (ts : List String) → Distinct ts → has ts s ≡ false → Distinct (insert_sorted s ts)
unfolding insert_sorted has
has-insert_sorted-false s [] d h = (refl, tt)
has-insert_sorted-false s (t ∷ ts) d h =
    ground
      (arith, has-insert_sorted-false s ts d.1, has-insert_sorted s ts t, eq_iff s t, eq_iff t s)

pub Distinct-sorted : (ss : List String) → Distinct ss → Distinct (sorted ss)
unfolding sorted
Distinct-sorted [] d = tt
Distinct-sorted (s ∷ ss) d =
    has-insert_sorted-false s (sorted ss) (Distinct-sorted ss d.1)
      (ground (arith, has-sorted ss s, d.0))
