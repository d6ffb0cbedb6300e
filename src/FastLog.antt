-- ===== src/FastLog.antt =====
-- `FastLog` of qcbridge/ring1/fastlog.py: what left on the fast lane, bounded, oldest first.
pub mod Window
use qcbridge.Prelude.{
  ℕ, ◌-◌, Bool, ◌&&◌, Option, none, some, List, [], ◌∷◌, ◌++◌, String, string_eq, leb,
  if◌then◌else◌, length, drop,
}
use qcbridge.Dict

pub record Sent : Type 0 where
  pub seq : ℕ
  pub uuid : String
  pub kind : String

-- `deque(maxlen=capacity)`
pub record FastLog : Type 0 where
  pub capacity : ℕ
  pub entries : List Sent

-- `__init__`
abbrev pub init : ℕ → FastLog
init capacity = record { capacity = capacity; entries = [] }

-- An append to a full deque drops its oldest entry.
unfoldable pub append_bounded : ℕ → List Sent → Sent → List Sent
append_bounded capacity entries e = let all = entries ++ e ∷ [] in drop (length all - capacity) all

unfoldable pub log_sent : FastLog → Sent → FastLog
unfolding append_bounded
log_sent l e = record l { entries = append_bounded l.capacity l.entries e }

unfoldable pub oldest_seq : FastLog → Option ℕ
oldest_seq l = elim l.entries [ [] ↦ none | e ∷ _ ↦ some e.seq ]

last_of : List Sent → Option ℕ
last_of [] = none
last_of (e ∷ []) = some e.seq
last_of (e ∷ f ∷ es) = last_of (f ∷ es)

unfoldable pub newest_seq : FastLog → Option ℕ
unfolding last_of
newest_seq l = last_of l.entries

unfoldable pub covers : FastLog → Option ℕ → Bool
unfolding oldest_seq
covers l seq = elim seq [
  | none ↦ Bool.false
  | some s ↦ elim (oldest_seq l) [ none ↦ Bool.false | some oldest ↦ leb oldest s ]
]

-- The loop of `window_since` over the dictionary `last`.
unfoldable pub collect : ℕ → List Sent → List (String × String) → List (String × String)
unfolding Dict.put
collect seq [] last = last
collect seq (e ∷ es) last =
    collect seq es (if leb seq e.seq then Dict.put last e.uuid e.kind else last)

unfoldable pub window_since : FastLog → ℕ → List (String × String)
unfolding collect
window_since l seq = collect seq l.entries []

unfoldable pub clear : FastLog → FastLog
clear l = record l { entries = [] }

-- `__len__`
unfoldable pub size : FastLog → ℕ
size l = length l.entries
