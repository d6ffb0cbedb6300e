-- ===== src/RingLayout.antt =====
-- qcbridge/ring1/ring_layout.py: offsets inside the shared block, the packed control word `latest`,
-- and the choice of the slot to write.
pub mod Geometry
pub mod Slots
use qcbridge.Prelude.{
  ℕ, ◌+◌, ◌-◌, ◌*◌, ◌/◌, ◌%◌, ◌^◌, Bool, Option, none, some, nat_eq, ◌==◌, leb, if◌then◌else◌,
}

abbrev pub page : ℕ
page = 4096

abbrev pub row_align : ℕ
row_align = 256

abbrev pub default_slots : ℕ
default_slots = 3

-- `(n + to - 1) // to * to`
unfoldable pub round_up : ℕ → ℕ → ℕ
round_up n to = (n + to - 1) / to * to

unfoldable pub bytes_per_row : ℕ → ℕ → ℕ
unfolding round_up
bytes_per_row width bytes_per_pixel = round_up (width * bytes_per_pixel) row_align

unfoldable pub capacity_for : ℕ → ℕ → ℕ → ℕ
unfolding bytes_per_row round_up
capacity_for width height bytes_per_pixel =
    round_up (bytes_per_row width bytes_per_pixel * height) page

unfoldable pub height_cap : ℕ → ℕ
unfolding round_up
height_cap width = round_up (width * 3 / 4) 2

pub record Layout : Type 0 where
  pub slot_count : ℕ
  pub pixels_capacity : ℕ
  pub slot_stride : ℕ

abbrev pub pixels_offset : ℕ
pixels_offset = page

unfoldable pub total_size : Layout → ℕ
total_size l = page + l.slot_count * l.slot_stride

unfoldable pub slot_offset : Layout → ℕ → ℕ
slot_offset l slot = page + slot * l.slot_stride

unfoldable pub pixels_at : Layout → ℕ → ℕ
unfolding slot_offset
pixels_at l slot = slot_offset l slot + pixels_offset

unfoldable pub fits : Layout → ℕ → ℕ → ℕ → Bool
unfolding bytes_per_row
fits l width height bytes_per_pixel =
    leb (bytes_per_row width bytes_per_pixel * height) l.pixels_capacity

-- `height if height is not None else height_cap(width)`
unfoldable pub or_height_cap : Option ℕ → ℕ → ℕ
unfolding height_cap
or_height_cap none width = height_cap width
or_height_cap (some height) width = height

-- The default of `bytes_per_pixel`.
abbrev pub rgba32f : ℕ
rgba32f = 16

unfoldable pub layout_for : ℕ → Option ℕ → ℕ → Layout
unfolding capacity_for or_height_cap
layout_for width height slots =
    let cap = capacity_for width (or_height_cap height width) rgba32f in
    record { slot_count = slots; pixels_capacity = cap; slot_stride = page + cap }

-- `(seq << 8) | (slot & 0xFF)`: the low eight bits of the shifted number are zero, so `|` adds.
unfoldable pub pack_latest : ℕ → ℕ → ℕ
pack_latest seq slot = seq * 2 ^ 8 + slot % 2 ^ 8

unfoldable pub unpack_latest : ℕ → ℕ × ℕ
unpack_latest latest = (latest / 2 ^ 8, latest % 2 ^ 8)

-- `last_slot`, which is -1 before the first frame.
pub data LastSlot : Type 0 where
  before_first : LastSlot
  at_slot : ℕ → LastSlot

-- `(last_slot + 1) % slot_count`
unfoldable pub slot_after : LastSlot → ℕ → ℕ
slot_after before_first slot_count = 0 % slot_count
slot_after (at_slot last) slot_count = (last + 1) % slot_count

-- `reader_claim - 1 if reader_claim else None`
unfoldable pub held_slot : ℕ → Option ℕ
held_slot reader_claim = if reader_claim == 0 then none else some (reader_claim - 1)

-- `slot == held`
unfoldable pub is_held : ℕ → Option ℕ → Bool
is_held slot none = Bool.false
is_held slot (some held) = slot == held

unfoldable pub next_slot : LastSlot → ℕ → ℕ → ℕ
unfolding slot_after held_slot is_held
next_slot last_slot reader_claim slot_count =
    let slot = slot_after last_slot slot_count in
    if is_held slot (held_slot reader_claim) then (slot + 1) % slot_count else slot
