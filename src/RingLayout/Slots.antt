-- ===== src/RingLayout/Slots.antt =====
-- The writer's slot: in range, never the reader's, and not the newest published one.
use native.Mathlib.Nat.{mod-lt, mod-eq_of_lt, mod_self}
use qcbridge.Prelude.{
  ℕ, ◌+◌, ◌%◌, ◌≤◌, ◌<◌, ◌≡◌, ◌≢◌, arith, nat_eq, ◌==◌, if◌then◌else◌, Bool-cases, eqb_iff, inl,
  inr,
}
use qcbridge.RingLayout.{at_slot, slot_after, next_slot, pack_latest, unpack_latest}

-- A published word gives back its sequence number and its slot, for the slots that fit a byte.
pub unpack_latest-pack_latest :
    (seq slot : ℕ) → slot < 256 → unpack_latest (pack_latest seq slot) ≡ (seq, slot)
unfolding pack_latest unpack_latest
unpack_latest-pack_latest seq slot h = ground arith

wrap : (x c : ℕ) → x < c → (x + 1) % c ≡ (if x + 1 == c then 0 else x + 1)
wrap x c h = elim (Bool-cases (x + 1 == c)) [
  | inl full ↦ rw full (rw ((eqb_iff (x + 1) c).0 full) (mod_self c))
  | inr below ↦ rw below (mod-eq_of_lt (ground arith))
]

-- With three slots or more the slot chosen is in range, is not the one that the reader has
-- claimed, and is not the last one written, which `latest` names.
pub next_slot_lem :
    (last reader_claim slot_count : ℕ)
    → 3 ≤ slot_count
    → last < slot_count
    → (next_slot (at_slot last) reader_claim slot_count < slot_count)
      × (next_slot (at_slot last) reader_claim slot_count + 1 ≢ reader_claim)
      × (next_slot (at_slot last) reader_claim slot_count ≢ last)
unfolding next_slot
next_slot_lem last reader_claim slot_count h lt = ground (
  arith,
  wrap last slot_count lt,
  wrap (slot_after (at_slot last) slot_count) slot_count (mod-lt (last + 1) (omega arith)),
)
