-- ===== src/VisView/Plan.antt =====
-- Carrying a plan out on what a viewport shows gives what is wanted.
use qcbridge.Prelude.{
  ◌≡◌, refl, ◌∙◌, ==_refl, Bool, true, false, not, ◌&&◌, ◌||◌, none, some, List, [], ◌∷◌, String,
  string_eq, if◌then◌else◌, arith,
}
use qcbridge.KeySet.{has, to_set, minus, has-minus, has-to_set}
use qcbridge.Sorting.{has-sorted}
use qcbridge.VisView.{VisSig, VisPlan, nonempty, is_empty, sorted_minus, same_bool, plan}

-- Local View after the calls: leaving it empties it, entering it sets it, and otherwise objects
-- leave and join.
abbrev pub local_after : VisPlan → (String → Bool) → String → Bool
local_after p shown j =
    if p.exit
    then false
    else if nonempty p.enter_with
    then has p.enter_with j
    else not (has p.remove j) && shown j || has p.add j

-- The collections hidden in the viewport after the calls.
abbrev pub hidden_after : VisPlan → (String → Bool) → String → Bool
hidden_after p hidden j = not (has p.lc_show j) && hidden j || has p.lc_hide j

-- The collection mode after the calls.
abbrev pub colls_after : VisPlan → Bool → Bool
colls_after p mode = elim p.set_local_colls [ none ↦ mode | some to ↦ to ]

pub has-sorted_minus :
    (a b : List String) (j : String) → has (sorted_minus a b) j ≡ (not (has b j) && has a j)
unfolding sorted_minus
has-sorted_minus a b j =
    has-sorted (minus (to_set a) (to_set b)) j
    ∙ has-minus (to_set a) (to_set b) j
    ∙ rw (has-to_set, has-to_set)

local_lem :
    (have want : List String) (j : String)
    → (if nonempty have && not (nonempty want)
        then false
        else if nonempty (if nonempty want && not (nonempty have) then want else [])
        then has (if nonempty want && not (nonempty have) then want else []) j
        else not (has (if nonempty want && nonempty have then sorted_minus have want else []) j)
            && has have j
          || has (if nonempty want && nonempty have then sorted_minus want have else []) j)
      ≡ has want j
unfolding has
local_lem [] [] j = refl
local_lem [] (w ∷ want) j = refl
local_lem (h ∷ have) [] j = refl
local_lem (h ∷ have) (w ∷ want) j =
    ground
      (arith, has-sorted_minus (h ∷ have) (w ∷ want) j, has-sorted_minus (w ∷ want) (h ∷ have) j)

colls_lem :
    (have want : Bool)
    → elim (if same_bool have want then none else some want) [ none ↦ have | some to ↦ to ] ≡ want
colls_lem have want = ground arith

hidden_lem :
    (have want : VisSig) (j : String)
    → hidden_after (plan have want) (has have.hidden_lc) j ≡ (
        if want.local_colls
        then has want.hidden_lc j
        else not have.local_colls && has have.hidden_lc j)
unfolding plan has
hidden_lem have want j = ground (
  arith,
  has-sorted have.hidden_lc j,
  has-sorted_minus have.hidden_lc want.hidden_lc j,
  has-sorted_minus want.hidden_lc have.hidden_lc j,
)

-- The plan from `have` to `want` ends with the objects of `want` in Local View and with its
-- collection mode. With per-viewport collections wanted it ends with the hidden collections of
-- `want`; otherwise with none when the mode was on, and with those of `have` when it was off.
pub plan_lem :
    (have want : VisSig) (j : String)
    → (local_after (plan have want) (has have.local) j ≡ has want.local j)
      × (colls_after (plan have want) have.local_colls ≡ want.local_colls)
      × (hidden_after (plan have want) (has have.hidden_lc) j ≡ (
          if want.local_colls
          then has want.hidden_lc j
          else not have.local_colls && has have.hidden_lc j))
unfolding plan has
plan_lem have want j = (
  local_lem have.local want.local j,
  colls_lem have.local_colls want.local_colls,
  hidden_lem have want j,
)

nonempty_of_has : (xs : List String) → ((j : String) → has xs j ≡ false) → nonempty xs ≡ false
unfolding has
nonempty_of_has [] h = refl
nonempty_of_has (x ∷ xs) h = ground (arith, h x, ==_refl x)

sorted_minus_self : (xs : List String) → nonempty (sorted_minus xs xs) ≡ false
sorted_minus_self xs =
    nonempty_of_has (sorted_minus xs xs) (λ j. ground (arith, has-sorted_minus xs xs j))

-- Nothing is called when the viewport shows what is wanted.
pub plan_same : (sig : VisSig) → is_empty (plan sig sig) ≡ true
unfolding plan is_empty
plan_same sig = ground (arith, sorted_minus_self sig.local, sorted_minus_self sig.hidden_lc)
