-- ===== src/FastLog/Window.antt =====
-- The window of a repair: while the log covers a hole, nothing sent since it is missing.
use mathlib.Core.List.{append_assoc, append-nil}
use qcbridge.Prelude.{
  ℕ, zero, suc, ◌+◌, ◌-◌, ◌≤◌, ◌≡◌, refl, sym, ap, ◌∙◌, true, ◌&&◌, Option, none, some, List, [],
  ◌∷◌, ◌++◌, String, string_eq, ◌==◌, arith, leb, if◌then◌else◌, length, drop, select,
  select-append,
}
use qcbridge.Dict
use qcbridge.Dict.{get-put}
use qcbridge.FastLog
use qcbridge.FastLog.{
  FastLog, Sent, log_sent, append_bounded, covers, collect, window_since, oldest_seq,
}

-- Each number is above the one before it, the first at least `low`.
abbrev pub Ascending : ℕ → List Sent → Type 0
Ascending low [] = Unit
Ascending low (e ∷ es) = (low ≤ e.seq) × Ascending (e.seq + 1) es

unfoldable pub log_all : FastLog → List Sent → FastLog
unfolding log_sent
log_all l [] = l
log_all l (e ∷ es) = log_all (log_sent l e) es

drop_split : (n : ℕ) (es : List Sent) → (pre : List Sent) × (pre ++ drop n es ≡ es)
drop_split zero es = ([], refl)
drop_split (suc n) [] = ([], refl)
drop_split (suc n) (e ∷ es) = let (pre, same) = drop_split n es in (e ∷ pre, ap (◌∷◌ e) same)

-- The log holds an end of all that was recorded.
log_all_split :
    (l : FastLog) (es : List Sent)
    → (pre : List Sent) × (pre ++ (log_all l es).entries ≡ l.entries ++ es)
unfolding log_all log_sent append_bounded
log_all_split l [] = ([], rw append-nil)
log_all_split l (e ∷ es) =
    let (pre, same) = log_all_split (log_sent l e) es in
    let (gone, split) =
      drop_split (length (l.entries ++ e ∷ []) - l.capacity) (l.entries ++ e ∷ []) in
    (
      gone ++ pre,
      append_assoc gone pre _
          ∙ ap (◌++◌ gone) same
          ∙ sym (append_assoc gone _ es)
          ∙ ap (λ (z : List Sent). z ++ es) split
          ∙ append_assoc l.entries (e ∷ []) es,
    )

length-drop : (n : ℕ) (es : List Sent) → length (drop n es) ≡ length es - n
length-drop zero es = omega arith
length-drop (suc n) [] = omega arith
length-drop (suc n) (e ∷ es) = omega (arith, length-drop n es)

-- The last kind recorded for a uuid from `seq` on.
unfoldable pub last_kind : ℕ → String → List Sent → Option String
last_kind seq u [] = none
last_kind seq u (e ∷ es) = elim (last_kind seq u es) [
  | some k ↦ some k
  | none ↦ if leb seq e.seq && e.uuid == u then some e.kind else none
]

get-collect :
    (seq : ℕ) (es : List Sent) (last : List (String × String)) (u : String)
    → Dict.get (collect seq es last) u
      ≡ elim (last_kind seq u es) [ some k ↦ some k | none ↦ Dict.get last u ]
unfolding collect last_kind
get-collect seq [] last u = refl
get-collect seq (e ∷ es) last u = ground (
  arith,
  get-collect seq es (if leb seq e.seq then Dict.put last e.uuid e.kind else last) u,
  get-put last e.uuid e.kind u,
)

Ascending-later :
    (low : ℕ) (pre es : List Sent) (e : Sent) → Ascending low (pre ++ e ∷ es) → low ≤ e.seq
Ascending-later low [] es e h = h.0
Ascending-later low (p ∷ pre) es e h = omega (arith, Ascending-later (p.seq + 1) pre es e h.1)

-- What comes before a covered hole does not enter its window.
below_skipped :
    (seq low : ℕ) (pre es : List Sent) (e : Sent)
    → Ascending low (pre ++ e ∷ es)
    → e.seq ≤ seq
    → select (λ x. leb seq x.seq) pre ≡ []
below_skipped seq low [] es e h le = refl
below_skipped seq low (p ∷ pre) es e h le =
    ground (
      arith,
      Ascending-later (p.seq + 1) pre es e h.1,
      below_skipped seq (p.seq + 1) pre es e h.1 le,
    )

covers_oldest :
    (l : FastLog) (seq : ℕ)
    → covers l (some seq) ≡ true
    → (e : Sent) × (es : List Sent) × (l.entries ≡ e ∷ es) × (e.seq ≤ seq)
unfolding covers
covers_oldest l seq h = go l.entries refl
  where
    go :
        (xs : List Sent)
        → l.entries ≡ xs
        → (e : Sent) × (es : List Sent) × (l.entries ≡ e ∷ es) × (e.seq ≤ seq)
    go [] e = absurd (ground arith)
    go (x ∷ xs) e = (x, xs, e, ground arith)

select_window :
    (l : FastLog) (pre sent : List Sent) (seq low : ℕ)
    → pre ++ l.entries ≡ sent
    → Ascending low sent
    → covers l (some seq) ≡ true
    → select (λ x. leb seq x.seq) l.entries ≡ select (λ x. leb seq x.seq) sent
select_window l pre sent seq low split up cov =
    let (e, es, shape, le) = covers_oldest l seq cov in
    let whole : pre ++ e ∷ es ≡ sent = ap (λ (z : List Sent). pre ++ z) (sym shape) ∙ split in
    let skipped : select (λ x. leb seq x.seq) pre ≡ [] =
      below_skipped seq low pre es e (rw whole up) le in
    rw (← split, select-append, skipped)

last_kind-select :
    (seq : ℕ) (u : String) (es : List Sent)
    → last_kind seq u (select (λ x. leb seq x.seq) es) ≡ last_kind seq u es
unfolding last_kind
last_kind-select seq u [] = refl
last_kind-select seq u (e ∷ es) = ground (arith, last_kind-select seq u es)

pub window_since_lem :
    (capacity : ℕ) (sent : List Sent) (seq : ℕ) (u : String)
    → Ascending 0 sent
    → covers (log_all (FastLog.init capacity) sent) (some seq) ≡ true
    → Dict.get (window_since (log_all (FastLog.init capacity) sent) seq) u ≡ last_kind seq u sent
unfolding window_since Dict.get
window_since_lem capacity sent seq u up cov =
    let l = log_all (FastLog.init capacity) sent in
    let (pre, split) = log_all_split (FastLog.init capacity) sent in
    let kinds : last_kind seq u l.entries ≡ last_kind seq u sent =
      sym (last_kind-select seq u l.entries)
      ∙ ap (last_kind seq u) (select_window l pre sent seq 0 split up cov)
      ∙ last_kind-select seq u sent in
    ground (arith, get-collect seq l.entries [] u, kinds)
