-- ===== src/PathMap.antt =====
-- qcbridge/ring1/pathmap.py: paths of one system translated to another. A text is its code points.
-- Parameters stand for Python's: `lower` for `str.lower`, `is_alpha` for `str.isalpha` of one
-- character, `home` for `os.path.expanduser("~")`, and `current` for the machine's own tag.
pub mod Longest
use qcbridge.Prelude.{
  ℕ, zero, suc, ◌+◌, Bool, true, false, not, ◌&&◌, ◌||◌, Option, none, some, is_some, List, [], ◌∷◌,
  ◌++◌, nat_eq, ◌==◌, leb, if◌then◌else◌, length, drop, map,
}

abbrev pub Text : Type 0
Text = List ℕ

abbrev pub slash : ℕ
slash = 47

abbrev pub backslash : ℕ
backslash = 92

abbrev pub tilde : ℕ
tilde = 126

abbrev pub colon : ℕ
colon = 58

-- The tags "win", "mac", "lin".
pub data Os : Type 0 where
  win mac lin : Os

abbrev pub is_win : Os → Bool
is_win win = true
is_win _ = false

abbrev pub same_os : Os → Os → Bool
same_os win win = true
same_os mac mac = true
same_os lin lin = true
same_os _ _ = false

pub record PathMapping : Type 0 where
  pub win_root : Text
  pub mac_root : Text
  pub enabled : Bool
  pub label : Text

abbrev pub empty : Text → Bool
empty [] = true
empty (c ∷ cs) = false

unfoldable pub same_text : Text → Text → Bool
same_text [] [] = true
same_text (a ∷ s) (b ∷ t) = a == b && same_text s t
same_text _ _ = false

-- `text.startswith(prefix)`
unfoldable pub starts : Text → Text → Bool
starts text [] = true
starts [] (b ∷ prefix) = false
starts (a ∷ text) (b ∷ prefix) = a == b && starts text prefix

-- `text.replace(old, new)` for single characters
unfoldable pub replace : ℕ → ℕ → Text → Text
replace old new [] = []
replace old new (c ∷ text) = (if c == old then new else c) ∷ replace old new text

abbrev pub is_separator : ℕ → Bool
is_separator c = c == slash || c == backslash

abbrev pub is_slash : ℕ → Bool
is_slash c = c == slash

abbrev pub is_backslash : ℕ → Bool
is_backslash c = c == backslash

-- `text.lstrip(..)` and `text.rstrip(..)`, for the characters of a test
unfoldable pub lstrip : (ℕ → Bool) → Text → Text
lstrip p [] = []
lstrip p (c ∷ text) = let rest = lstrip p text in if p c then rest else c ∷ text

unfoldable pub rstrip : (ℕ → Bool) → Text → Text
rstrip p [] = []
rstrip p (c ∷ text) = let rest = rstrip p text in if empty rest && p c then [] else c ∷ rest

unfoldable pub to_native : Text → Os → Text
unfolding replace
to_native path os = if is_win os then replace slash backslash path else replace backslash slash path

-- `f"{root}/{rest}" if rest else root`
unfoldable pub join_rest : Text → Text → Text
join_rest root rest = if empty rest then root else root ++ slash ∷ rest

-- What follows the "~" of a home prefix: nothing, or a separator first.
abbrev pub ends_or_separates : Text → Bool
ends_or_separates [] = true
ends_or_separates (c ∷ text) = is_separator c

unfoldable pub mapping_prefix_for : PathMapping → Os → Option Text
mapping_prefix_for m win = some m.win_root
mapping_prefix_for m mac = some m.mac_root
mapping_prefix_for m lin = none

-- A row of `candidates`
pub record Candidate : Type 0 where
  pub source_raw : Text
  pub target_raw : Text

unfoldable pub candidates : Os → Os → List PathMapping → List Candidate
unfolding mapping_prefix_for
candidates source target [] = []
candidates source target (m ∷ ms) =
    let rest = candidates source target ms in
    if not m.enabled then rest else elim (mapping_prefix_for m source) [
      | none ↦ rest
      | some s ↦ elim (mapping_prefix_for m target) [
        | none ↦ rest
        | some t ↦
            if empty s || empty t then rest else record { source_raw = s; target_raw = t } ∷ rest
      ]
    ]

-- `len(c[1].replace("\\", "/").rstrip("/"))`
unfoldable pub key_of : Candidate → ℕ
unfolding replace rstrip
key_of c = length (rstrip is_slash (replace backslash slash c.source_raw))

module _ {ℓ} {A : Type ℓ} (key : A → ℕ) where
  unfoldable pub insert_by : A → List A → List A
  insert_by x [] = x ∷ []
  insert_by x (y ∷ ys) =
      let rest = insert_by x ys in if leb (key y) (key x) then x ∷ y ∷ ys else y ∷ rest

  -- `sort(key=lambda c: -key(c))`, which is stable
  unfoldable pub sort_by : List A → List A
  unfolding insert_by
  sort_by [] = []
  sort_by (x ∷ xs) = insert_by x (sort_by xs)

-- The `return` of the first round of a loop that has one.
unfoldable pub first_some {ℓ} : {A : Type ℓ} → (A → Option Text) → List A → Option Text
first_some f [] = none
first_some f (x ∷ xs) = elim (f x) [ none ↦ first_some f xs | some t ↦ some t ]

-- `case_path`, `cmp_path` and `cmp_source`
pub record Compared : Type 0 where
  pub case_path : Text
  pub cmp_path : Text
  pub cmp_source : Text

-- `cmp_path == cmp_source or cmp_path.startswith(cmp_source + "/")`
unfoldable pub within : Text → Text → Bool
unfolding same_text starts
within cmp_path cmp_source =
    same_text cmp_path cmp_source || starts cmp_path (cmp_source ++ slash ∷ [])

module _ (lower : Text → Text) (is_alpha : ℕ → Bool) (home : Text) (current : Os) where
  unfoldable pub expand_home : Text → Text
  unfolding lstrip rstrip replace join_rest
  expand_home [] = []
  expand_home (c ∷ text) =
      if c == tilde && ends_or_separates text
      then join_rest (rstrip is_slash (replace backslash slash home)) (lstrip is_separator text)
      else c ∷ text

  unfoldable pub expand_mapping_prefix : Text → Os → Text
  unfolding expand_home
  expand_mapping_prefix prefix os = if same_os os current then expand_home prefix else prefix

  unfoldable pub strip_drive : Text → Text
  strip_drive (c ∷ d ∷ text) = if d == colon && is_alpha c then text else c ∷ d ∷ text
  strip_drive text = text

  unfoldable pub strip_for_win : Text → Text
  unfolding strip_drive lstrip
  strip_for_win text = lstrip is_slash (strip_drive text)

  unfoldable pub compared : Os → Text → Text → Compared
  unfolding strip_for_win lstrip rstrip
  compared os norm_path norm_source =
      if is_win os
      then (if empty (lstrip is_slash (rstrip is_slash (strip_for_win norm_source)))
          then record {
            case_path = norm_path;
            cmp_path = lower norm_path;
            cmp_source = lower (rstrip is_slash norm_source);
          }
          else record {
            case_path = strip_for_win norm_path;
            cmp_path = lower (strip_for_win norm_path);
            cmp_source = lower (rstrip is_slash (strip_for_win norm_source));
          })
      else record {
        case_path = norm_path;
        cmp_path = norm_path;
        cmp_source = rstrip is_slash norm_source;
      }

  -- One round of the loop over the candidates: its `return`, when the prefix matches.
  unfoldable pub try_candidate : Os → Os → Text → Candidate → Option Text
  unfolding compared expand_mapping_prefix replace within lstrip rstrip join_rest to_native
  try_candidate source target path c =
      let k =
        compared source (replace backslash slash path)
          (replace backslash slash (expand_mapping_prefix c.source_raw source)) in
      if within k.cmp_path k.cmp_source
      then some (
          to_native
            (join_rest (rstrip is_separator (expand_mapping_prefix c.target_raw target))
              (lstrip is_separator (drop (length k.cmp_source) k.case_path)))
            target)
      else none

  unfoldable pub translate : Os → Os → Text → List PathMapping → Text
  unfolding first_some try_candidate sort_by key_of candidates to_native
  translate source target path mappings =
      elim (first_some (try_candidate source target path)
        (sort_by key_of (candidates source target mappings))) [
          | none ↦ to_native path target
          | some translated ↦ translated
        ]

  unfoldable pub to_canonical : Text → List PathMapping → Text
  unfolding translate
  to_canonical path mappings = translate current win path mappings

  unfoldable pub from_canonical : Text → List PathMapping → Text
  unfolding translate
  from_canonical path mappings = translate win current path mappings

  -- The loop of `localize_any` over the source systems.
  unfoldable pub localize_from : List Os → Text → List PathMapping → Text
  unfolding translate to_native same_text
  localize_from [] path mappings = path
  localize_from (source ∷ sources) path mappings =
      let rest = localize_from sources path mappings in
      let translated = translate source current path mappings in
      if not (same_text translated (to_native path current)) then translated else rest

  unfoldable pub localize_any : Text → List PathMapping → Text
  unfolding localize_from
  localize_any path mappings = localize_from (win ∷ mac ∷ lin ∷ []) path mappings

  unfoldable pub is_mapped : Os → Text → List PathMapping → Bool
  unfolding translate to_native same_text
  is_mapped source path mappings =
      let target = if is_win source then mac else win in
      not (same_text (translate source target path mappings) (to_native path target))

  -- `key(m)` of `merge_tables`
  unfoldable pub row_key : PathMapping → Text × Text
  unfolding replace rstrip
  row_key m =
      (rstrip is_backslash (replace slash backslash (lower m.win_root)), rstrip is_slash m.mac_root)

  -- `key(m) in seen`
  unfoldable pub has_row : List PathMapping → PathMapping → Bool
  unfolding row_key same_text
  has_row [] m = false
  has_row (r ∷ rows) m =
      same_text (row_key r).0 (row_key m).0 && same_text (row_key r).1 (row_key m).1
      || has_row rows m

  -- `merge_tables`: `seen` holds the keys of the rows in `out`.
  unfoldable pub merge_tables : List PathMapping → List PathMapping → List PathMapping
  unfolding has_row
  merge_tables out [] = out
  merge_tables out (m ∷ received) =
      merge_tables (if has_row out m then out else out ++ m ∷ []) received
