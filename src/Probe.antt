-- ===== src/Probe.antt =====
-- qcbridge/ring1/probe.py: the latency stamp as a strip of bits. A host time enters as the whole
-- milliseconds `int(t_host * 1000)`; bits are taken by division, as `>>` and `& 1` take them.
pub mod Strip
use Prim.Native.Nat.{bit_xor}
use qcbridge.Prelude.{
  ℕ, zero, suc, ◌+◌, ◌-◌, ◌*◌, ◌/◌, ◌%◌, ◌^◌, Bool, true, false, not, ◌&&◌, ◌||◌, Option, none,
  some, List, [], ◌∷◌, ◌++◌, nat_eq, ◌==◌, if◌then◌else◌, length, take, drop,
}

-- `MARKER`
abbrev pub marker : List ℕ
marker = 1 ∷ 0 ∷ 1 ∷ 1 ∷ 0 ∷ 0 ∷ 1 ∷ 0 ∷ []

abbrev pub data_bits : ℕ
data_bits = 32 + 16 + 8

abbrev pub total_bits : ℕ
total_bits = 8 + data_bits

-- `(sum(t_ms.to_bytes(4) + seq.to_bytes(2)) ^ 0xA5) & 0xFF`
unfoldable pub check_of : ℕ → ℕ → ℕ
check_of t_ms seq =
    bit_xor
      (t_ms % 256 + t_ms / 256 % 256 + t_ms / 65536 % 256 + t_ms / 16777216 + seq % 256 + seq / 256)
      0xA5
    % 256

-- `[(word >> i) & 1 for i in range(n)]`
unfoldable pub bits_of : ℕ → ℕ → List ℕ
bits_of zero word = []
bits_of (suc n) word = word % 2 ∷ bits_of n (word / 2)

-- `word |= (b & 1) << i` over the bits: each bit has a place of its own, so `|` adds.
unfoldable pub word_of : List ℕ → ℕ
word_of [] = 0
word_of (b ∷ bits) = b % 2 + 2 * word_of bits

-- `t_ms | (seq << 32) | (check << 48)`, whose three parts do not overlap.
unfoldable pub join : ℕ → ℕ → ℕ → ℕ
join t_ms seq check = t_ms + seq * 2 ^ 32 + check * 2 ^ 48

unfoldable pub encode_bits : ℕ → ℕ → List ℕ
unfolding bits_of join
encode_bits ms seq =
    let t_ms = ms % 2 ^ 32 in
    let s = seq % 2 ^ 16 in marker ++ bits_of data_bits (join t_ms s (check_of t_ms s))

-- `tuple(bits[:8]) == MARKER`
unfoldable pub same_bits : List ℕ → List ℕ → Bool
same_bits [] [] = true
same_bits (a ∷ as') (b ∷ bs) = a == b && same_bits as' bs
same_bits _ _ = false

unfoldable pub decode_word : ℕ → Option (ℕ × ℕ)
decode_word word =
    let t_ms = word % 2 ^ 32 in
    let seq = word / 2 ^ 32 % 2 ^ 16 in
    if not (word / 2 ^ 48 % 256 == check_of t_ms seq) then none else some (t_ms, seq)

unfoldable pub decode_bits : List ℕ → Option (ℕ × ℕ)
unfolding same_bits word_of decode_word
decode_bits bits =
    if not (length bits == total_bits) || not (same_bits (take 8 bits) marker)
    then none
    else decode_word (word_of (drop 8 bits))

-- `((now - t_ms) & 0xFFFFFFFF)`, from the whole milliseconds of `now`
unfoldable pub latency_ms : ℕ → ℕ → ℕ
latency_ms now t_ms = (now % 2 ^ 32 + 2 ^ 32 - t_ms) % 2 ^ 32
