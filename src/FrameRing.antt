-- ===== src/FrameRing.antt =====
-- `FrameRing.publish` of qcbridge/ring0/frame_ring.py as the stores it makes, in order. The pixels
-- and the rest of a descriptor are of a type `P`: one published frame. Shared memory keeps each
-- store whole; the bytes of the pixels and of the descriptor may change at any moment in between.
pub mod Seqlock
use qcbridge.Prelude.{
  ℕ, zero, suc, ◌+◌, ◌/◌, ◌%◌, ◌*◌, Bool, true, false, not, ◌&&◌, ◌||◌, Option, none, some, List,
  [], ◌∷◌, ◌++◌, nat_eq, ◌==◌, if◌then◌else◌,
}
use qcbridge.RingLayout.{
  Layout, LastSlot, before_first, at_slot, next_slot, pack_latest, fits, rgba32f,
}

-- What a slot holds: a whole frame, or one that is being written.
pub data Content {ℓ} (P : Type ℓ) : Type ℓ where
  torn : Content P
  whole : P → Content P

pub record Slot {ℓ} (P : Type ℓ) : Type ℓ where
  pub seqlock : ℕ
  pub content : Content P

-- The shared block: its slots and the word `latest`.
pub record Block {ℓ} (P : Type ℓ) : Type ℓ where
  pub slots : ℕ → Slot P
  pub latest : ℕ

-- One store of the writer.
pub data Write {ℓ} (P : Type ℓ) : Type ℓ where
  write_seqlock : ℕ → ℕ → Write P
  write_part : ℕ → Write P
  write_last_part : ℕ → P → Write P
  write_latest : ℕ → Write P

pub record Ring : Type 0 where
  pub layout : Layout
  pub seq : ℕ
  pub last_slot : LastSlot
  pub published : ℕ
  pub retired : Bool

-- `seqlock | 1`
unfoldable pub or_one : ℕ → ℕ
or_one n = if n % 2 == 0 then n + 1 else n

module _ {ℓ} {P : Type ℓ} where
  unfoldable pub set_slot : (ℕ → Slot P) → ℕ → Slot P → ℕ → Slot P
  set_slot slots i s j = if i == j then s else slots j

  -- The block after a store.
  unfoldable pub store : Block P → Write P → Block P
  unfolding set_slot
  store b (write_seqlock i n) = record b {
    slots = set_slot b.slots i (record { seqlock = n; content = (b.slots i).content });
  }
  store b (write_part i) = record b {
    slots = set_slot b.slots i (record { seqlock = (b.slots i).seqlock; content = torn });
  }
  store b (write_last_part i p) = record b {
    slots = set_slot b.slots i (record { seqlock = (b.slots i).seqlock; content = whole p });
  }
  store b (write_latest n) = record b { latest = n }

  -- The stores of `publish` for the slot chosen: the odd seqlock, the pixels (and the stamp), the
  -- descriptor but for its seqlock, the even seqlock, `latest`.
  unfoldable pub writes : ℕ → ℕ → ℕ → P → List (Write P)
  writes slot seqlock seq p =
      write_seqlock slot seqlock
      ∷ write_part slot
      ∷ write_last_part slot p
      ∷ write_seqlock slot (seqlock + 1)
      ∷ write_latest (pack_latest seq slot)
      ∷ []

  unfoldable pub publish : Ring → Block P → ℕ → ℕ → ℕ → P → Ring × List (Write P) × Bool
  unfolding writes or_one
  publish r b reader_claim w h p =
      if r.retired || not (fits r.layout w h rgba32f)
      then (r, [], false)
      else (let slot = next_slot r.last_slot reader_claim r.layout.slot_count in
          (
            record r { seq = r.seq + 1; last_slot = at_slot slot; published = r.published + 1 },
            writes slot (or_one (b.slots slot).seqlock) (r.seq + 1) p,
            true,
          ))

-- `retire`; the word of the state is not read by the writer.
unfoldable pub retire : Ring → Ring
retire r = record r { retired = true }
