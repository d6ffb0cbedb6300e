-- ===== src/Merge.antt =====
-- `LaneMerger` of qcbridge/ring1/merge.py: two ordered lanes merged into one apply order. A message
-- is its header's lane entries beside `A`, which stands for the rest of the header and the payload.
pub mod Applied
pub mod Parking
pub mod Trace
use qcbridge.Prelude.{
  ℕ, zero, suc, ◌+◌, ◌≤◌, ◌<◌, ◌≡◌, refl, Bool, true, false, not, ◌&&◌, ◌||◌, Option, none, some,
  List, [], ◌∷◌, ◌++◌, String, arith, ltb, leb, ◌==◌, nat_eq, string_eq, if◌then◌else◌, is_some,
  select, map, length,
}
use qcbridge.KeySet.{has, add, discard}
use qcbridge.Seq
use qcbridge.Seq.{SeqTracker}

-- The entries of a header that the merger reads; `none` is an absent key.
pub record Header : Type 0 where
  pub lane : Option String
  pub seq : Option ℕ
  pub after : Option ℕ

-- `gap_lane`
pub data GapLane : Type 0 where
  no_gap cold_gap fast_gap both_gaps : GapLane

pub record Parked {ℓ} (A : Type ℓ) : Type ℓ where
  pub after : ℕ
  pub header : Header
  pub payload : A

pub record LaneMerger {ℓ} (A : Type ℓ) : Type ℓ where
  pub cold : SeqTracker
  pub fast : SeqTracker
  pub cold_applied : ℕ
  pub fast_applied : ℕ
  pub fast_done : List ℕ
  pub parked : List (Parked A)

-- `lane_of`; only "f" is compared against.
unfoldable pub is_fast : Header → Bool
is_fast h = elim h.lane [ none ↦ false | some l ↦ l == "f" ]

-- `int(header.get("after") or 0)`
unfoldable pub after_of : Header → ℕ
after_of h = elim h.after [ none ↦ 0 | some a ↦ a ]

-- The `while` loop of `fast_done`, on fuel: each round takes one number out of the set.
unfoldable pub drain : ℕ → ℕ → List ℕ → ℕ × List ℕ
unfolding has discard
drain zero n s = (n, s)
drain (suc fuel) n s =
    let rest = drain fuel (n + 1) (discard s (n + 1)) in if has s (n + 1) then rest else (n, s)

-- The first assignment of `cold_done`.
unfoldable pub apply_cold : ℕ → Option ℕ → ℕ
apply_cold applied none = applied
apply_cold applied (some seq) = if ltb applied seq then seq else applied

-- The catching up of `clear_fast_gap`.
unfoldable pub catch_up : Option ℕ → ℕ → ℕ
catch_up none applied = applied
catch_up (some seen) applied = if ltb applied seen then seen else applied

module _ {ℓ} {A : Type ℓ} where
  -- `__init__`, and what `reset` leaves behind
  abbrev pub init : LaneMerger A
  init = record {
    cold = Seq.init;
    fast = Seq.init;
    cold_applied = 0;
    fast_applied = 0;
    fast_done = [];
    parked = [];
  }

  unfoldable pub gaps : LaneMerger A → ℕ
  gaps m = m.cold.gaps + m.fast.gaps

  unfoldable pub gap_lane : LaneMerger A → GapLane
  gap_lane m =
      if is_some m.cold.first_missing
      then (if is_some m.fast.first_missing then both_gaps else cold_gap)
      else (if is_some m.fast.first_missing then fast_gap else no_gap)

  unfoldable pub observe : LaneMerger A → Header → LaneMerger A × Bool
  unfolding is_fast Seq.observe
  observe m h = elim h.seq [
    | none ↦ (m, true)
    | some seq ↦
        if is_fast h
        then (let (t, contiguous) = Seq.observe m.fast seq in (record m { fast = t }, contiguous))
        else (let (t, contiguous) = Seq.observe m.cold seq in (record m { cold = t }, contiguous))
  ]

  unfoldable pub admit : LaneMerger A → Header → A → LaneMerger A × Bool
  unfolding is_fast after_of
  admit m h p =
      if not (is_fast h)
      then (m, true)
      else if leb (after_of h) m.cold_applied
      then (m, true)
      else (
        record m {
          parked = m.parked ++ record { after = after_of h; header = h; payload = p } ∷ [];
        },
        false,
      )

  -- `a <= self.cold_applied`
  abbrev pub is_due : ℕ → Parked A → Bool
  is_due applied q = leb q.after applied

  abbrev pub is_waiting : ℕ → Parked A → Bool
  is_waiting applied q = ltb applied q.after

  unfoldable pub cold_done : LaneMerger A → Option ℕ → LaneMerger A × List (Parked A)
  unfolding apply_cold
  cold_done m seq =
      let applied = apply_cold m.cold_applied seq in
      let due = select (is_due applied) m.parked in
      elim due [
        | [] ↦ (record m { cold_applied = applied }, [])
        | first ∷ others ↦ (
          record m { cold_applied = applied; parked = select (is_waiting applied) m.parked },
          first ∷ others,
        )
      ]

  unfoldable pub fast_done : LaneMerger A → Option ℕ → LaneMerger A
  unfolding drain add
  fast_done m none = m
  fast_done m (some seq) =
      if leb seq m.fast_applied
      then m
      else (let (n, s) =
            drain (length (add m.fast_done seq)) m.fast_applied (add m.fast_done seq) in
          record m { fast_applied = n; fast_done = s })

  unfoldable pub clear_fast_gap : LaneMerger A → LaneMerger A
  unfolding Seq.clear_gap catch_up
  clear_fast_gap m =
      let applied = catch_up (Seq.clear_gap m.fast).last_seen m.fast_applied in
      record m {
        fast = Seq.clear_gap m.fast;
        fast_applied = applied;
        fast_done = select (λ s. ltb applied s) m.fast_done;
      }

  unfoldable pub clear_cold_gap : LaneMerger A → LaneMerger A
  unfolding Seq.clear_gap
  clear_cold_gap m = record m { cold = Seq.clear_gap m.cold }

  unfoldable pub reset : LaneMerger A → LaneMerger A
  reset m = init
