-- ===== src/Seq.antt =====
-- `SeqTracker` of qcbridge/ring1/protocol.py: the sequence numbers of one lane, gaps detected.
pub mod Holes
use qcbridge.Prelude.{
  ℕ, suc, ◌+◌, ◌≤◌, ◌<◌, ◌≡◌, refl, Bool, true, false, not, ◌&&◌, ◌||◌, Option, none, some, List,
  [], ◌∷◌, arith, ltb, eqb, if◌then◌else◌, is_some,
}

pub record SeqTracker : Type 0 where
  pub last_seen : Option ℕ
  pub gaps : ℕ
  pub first_missing : Option ℕ

-- `__init__`
abbrev pub init : SeqTracker
init = record { last_seen = none; gaps = 0; first_missing = none }

-- `self.last_seen is None or seq == self.last_seen + 1`
unfoldable pub contiguous : Option ℕ → ℕ → Bool
contiguous none seq = true
contiguous (some last) seq = eqb seq (last + 1)

-- The assignment to `first_missing` in the branch of a gap.
unfoldable pub note_missing : Option ℕ → Option ℕ → ℕ → Option ℕ
note_missing (some m) last seq = some m
note_missing none none seq = none
note_missing none (some last) seq = if ltb (last + 1) seq then some (last + 1) else none

-- The last two lines before the `return`.
unfoldable pub advance : Option ℕ → ℕ → Option ℕ
advance none seq = some seq
advance (some last) seq = if ltb last seq then some seq else some last

unfoldable pub observe : SeqTracker → ℕ → SeqTracker × Bool
unfolding contiguous note_missing advance
observe t seq =
    if contiguous t.last_seen seq
    then (record t { last_seen = advance t.last_seen seq }, true)
    else (
      record {
        last_seen = advance t.last_seen seq;
        gaps = t.gaps + 1;
        first_missing = note_missing t.first_missing t.last_seen seq;
      },
      false,
    )

unfoldable pub clear_gap : SeqTracker → SeqTracker
clear_gap t = record t { first_missing = none }

-- A stream of sequence numbers, oldest first.
unfoldable pub observe_all : SeqTracker → List ℕ → SeqTracker
unfolding observe
observe_all t [] = t
observe_all t (seq ∷ seqs) = observe_all (observe t seq).0 seqs
