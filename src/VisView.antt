-- ===== src/VisView.antt =====
-- qcbridge/ring1/visview.py: the visibility of one viewport, and the operator calls that take one
-- to another. The JSON text of `encode` and `decode` is not modelled.
pub mod Plan
use qcbridge.Prelude.{
  Bool, true, false, not, ◌&&◌, ◌||◌, Option, none, some, List, [], ◌∷◌, String, string_eq,
  if◌then◌else◌, is_some,
}
use qcbridge.KeySet.{to_set, minus}
use qcbridge.Sorting.{sorted}

pub record VisSig : Type 0 where
  pub local : List String
  pub local_colls : Bool
  pub hidden_lc : List String

-- `VisSig.make`
unfoldable pub make : List String → Bool → List String → VisSig
unfolding sorted to_set
make local local_colls hidden_lc = record {
  local = sorted (to_set local);
  local_colls = local_colls;
  hidden_lc = sorted (to_set hidden_lc);
}

pub record VisPlan : Type 0 where
  pub exit : Bool
  pub enter_with : List String
  pub add : List String
  pub remove : List String
  pub set_local_colls : Option Bool
  pub lc_hide : List String
  pub lc_show : List String

-- The truth of a tuple.
abbrev pub nonempty : List String → Bool
nonempty [] = false
nonempty (x ∷ xs) = true

-- `empty`
unfoldable pub is_empty : VisPlan → Bool
is_empty p = not (
    p.exit
    || nonempty p.enter_with
    || nonempty p.add
    || nonempty p.remove
    || is_some p.set_local_colls
    || nonempty p.lc_hide
    || nonempty p.lc_show)

-- `tuple(sorted(set(a) - set(b)))`
unfoldable pub sorted_minus : List String → List String → List String
unfolding sorted minus to_set
sorted_minus a b = sorted (minus (to_set a) (to_set b))

abbrev pub same_bool : Bool → Bool → Bool
same_bool true b = b
same_bool false b = not b

unfoldable pub plan : VisSig → VisSig → VisPlan
plan have want =
    let both = nonempty want.local && nonempty have.local in
    record {
      exit = nonempty have.local && not (nonempty want.local);
      enter_with = if nonempty want.local && not (nonempty have.local) then want.local else [];
      add = if both then sorted_minus want.local have.local else [];
      remove = if both then sorted_minus have.local want.local else [];
      set_local_colls =
          if same_bool have.local_colls want.local_colls then none else some want.local_colls;
      lc_hide = if want.local_colls then sorted_minus want.hidden_lc have.hidden_lc else [];
      lc_show =
          if want.local_colls
          then sorted_minus have.hidden_lc want.hidden_lc
          else if have.local_colls
          then sorted have.hidden_lc
          else [];
    }
