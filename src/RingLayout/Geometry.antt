-- ===== src/RingLayout/Geometry.antt =====
-- Slots are page-aligned, apart from one another, inside the block, and large enough for a frame.
use native.Mathlib.Nat.{div-mul-le_self, lt-div-mul-add, mul-mod_left, le_trans}
use qcbridge.Prelude.{
  ℕ, ◌+◌, ◌-◌, ◌*◌, ◌/◌, ◌%◌, ◌≤◌, ◌<◌, ◌≡◌, true, Option, some, arith, leb, refl, ap, ◌∙◌,
}
use qcbridge.RingLayout.{
  page, round_up, bytes_per_row, capacity_for, layout_for, or_height_cap, total_size, slot_offset,
  pixels_at, fits, rgba32f,
}

-- Rounding up gives the least multiple that is not below.
pub round_up_lem :
    (n to : ℕ) → 0 < to → (n ≤ round_up n to) × (round_up n to < n + to) × (round_up n to % to ≡ 0)
unfolding round_up
round_up_lem n to h =
    let below = div-mul-le_self (n + to - 1) to in
    let above = lt-div-mul-add {a = n + to - 1} h in
    (omega arith, omega arith, mul-mod_left ((n + to - 1) / to) to)

leb_of_le : (a b : ℕ) → a ≤ b → leb a b ≡ true
leb_of_le a b h = ground arith

bytes_per_row_mono :
    (w width : ℕ) → w ≤ width → bytes_per_row w rgba32f ≤ bytes_per_row width rgba32f
unfolding bytes_per_row
bytes_per_row_mono w width h = omega arith

mul_mono : (a b c d : ℕ) → a ≤ b → c ≤ d → a * c ≤ b * d
mul_mono a b c d h g = grind arith

-- A frame within the size that a layout was made for fits its slots.
pub fits-layout_for :
    (width height slots w h : ℕ)
    → w ≤ width
    → h ≤ height
    → fits (layout_for width (some height) slots) w h rgba32f ≡ true
unfolding fits layout_for
fits-layout_for width height slots w h le ge = leb_of_le _ _ (
    le_trans (mul_mono _ _ h height (bytes_per_row_mono w width le) ge)
      (round_up_lem (bytes_per_row width rgba32f * height) page (omega arith)).0)

aligned : (slot cap : ℕ) → cap % page ≡ 0 → (page + slot * (page + cap) + page) % page ≡ 0
aligned slot cap h =
    let split : cap ≡ cap / page * page = omega arith in
    let k = cap / page in
    rw split (
      ap (λ (t : ℕ). t % page)
        (let e : page + slot * (page + k * page) + page ≡ (2 + slot + slot * k) * page =
            grind arith in
          e)
      ∙ mul-mod_left (2 + slot + slot * k) page)

-- The pixels of a slot are page-aligned, start after its descriptor page, and end where the next
-- slot begins; the last slot ends at the end of the block.
pub slots_apart :
    (width : ℕ) (height : Option ℕ) (slots slot : ℕ)
    → slot < slots
    → let l = layout_for width height slots in
      (pixels_at l slot % page ≡ 0)
      × (pixels_at l slot ≡ slot_offset l slot + page)
      × (pixels_at l slot + l.pixels_capacity ≡ slot_offset l (slot + 1))
      × (slot_offset l (slot + 1) ≤ total_size l)
unfolding layout_for pixels_at slot_offset total_size
slots_apart width height slots slot h =
    let cap = capacity_for width (or_height_cap height width) rgba32f in
    let whole : cap % page ≡ 0 =
      (round_up_lem (bytes_per_row width rgba32f * or_height_cap height width) page
        (omega arith)).2 in
    (
      aligned slot cap whole,
      refl,
      omega arith,
      omega
          (arith, mul_mono (slot + 1) slots (page + cap) (page + cap) (omega arith) (omega arith)),
    )
