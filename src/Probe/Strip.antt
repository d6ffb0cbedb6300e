-- ===== src/Probe/Strip.antt =====
-- A stamp read back from its strip, and the time that it measures.
use native.Mathlib.Nat.{pow-suc}
use qcbridge.Prelude.{
  ℕ, zero, suc, ◌+◌, ◌/◌, ◌%◌, ◌^◌, ◌<◌, ◌≡◌, refl, ap, ◌∙◌, not, none, some, ◌++◌, nat_eq, ◌==◌,
  ==_refl, if◌then◌else◌, length, arith,
}
use qcbridge.Probe.{
  marker, data_bits, check_of, bits_of, word_of, join, encode_bits, decode_word, decode_bits,
  latency_ms,
}

length-bits_of : (n word : ℕ) → length (bits_of n word) ≡ n
unfolding bits_of
length-bits_of zero word = refl
length-bits_of (suc n) word = ap suc (length-bits_of n (word / 2))

-- `n` bits hold a number below `2 ^ n`.
abbrev Below : ℕ → ℕ → Type 0
Below zero word = word ≡ 0
Below (suc n) word = Below n (word / 2)

word_of-bits_of : (n word : ℕ) → Below n word → word_of (bits_of n word) ≡ word
unfolding bits_of word_of
word_of-bits_of zero word h = ground arith
word_of-bits_of (suc n) word h = rw (word_of-bits_of n (word / 2) h) (omega arith)

Below-double : (n word : ℕ) → word < 2 ^ n → Below n word
Below-double zero word h = omega arith
Below-double (suc n) word h = Below-double n (word / 2) (omega (arith, pow-suc 2 n))

check_of-lt : (t s : ℕ) → check_of t s < 256
unfolding check_of
check_of-lt t s = omega arith

join_parts :
    (t s c : ℕ)
    → t < 2 ^ 32
    → s < 2 ^ 16
    → c < 256
    → (join t s c % 2 ^ 32 ≡ t)
      × (join t s c / 2 ^ 32 % 2 ^ 16 ≡ s)
      × (join t s c / 2 ^ 48 % 256 ≡ c)
unfolding join
join_parts t s c ht hs hc = omega arith

join-lt : (t s c : ℕ) → t < 2 ^ 32 → s < 2 ^ 16 → c < 256 → join t s c < 2 ^ data_bits
unfolding join
join-lt t s c ht hs hc = omega arith

decode_bits-marker :
    (word : ℕ)
    → Below data_bits word
    → decode_bits (marker ++ bits_of data_bits word) ≡ decode_word word
unfolding decode_bits
decode_bits-marker word h =
    rw (length-bits_of data_bits word, word_of-bits_of data_bits word h) refl

if-matching :
    {A : Type 0} (t s t' s' c : ℕ) (f : ℕ → ℕ → A) (z : A)
    → t' ≡ t
    → s' ≡ s
    → c ≡ check_of t s
    → (if not (c == check_of t' s') then z else f t' s') ≡ f t s
if-matching t s t' s' c f z et es ec = rw (et, es, ec, ==_refl (check_of t s)) refl

decode_word-join :
    (t s : ℕ) → t < 2 ^ 32 → s < 2 ^ 16 → decode_word (join t s (check_of t s)) ≡ some (t, s)
unfolding decode_word
decode_word-join t s ht hs =
    let (low, middle, high) = join_parts t s (check_of t s) ht hs (check_of-lt t s) in
    if-matching t s _ _ _ (λ a b. some (a, b)) none low middle high

-- A stamp survives the strip: decoding the encoded bits gives the milliseconds modulo 2^32 and the
-- sequence number modulo 2^16.
pub decode_bits-encode_bits :
    (ms seq : ℕ) → decode_bits (encode_bits ms seq) ≡ some (ms % 2 ^ 32, seq % 2 ^ 16)
unfolding encode_bits
decode_bits-encode_bits ms seq =
    let t = ms % 2 ^ 32 in
    let s = seq % 2 ^ 16 in
    let ht : t < 2 ^ 32 = omega arith in
    let hs : s < 2 ^ 16 = omega arith in
    decode_bits-marker (join t s (check_of t s))
      (Below-double data_bits _ (join-lt t s (check_of t s) ht hs (check_of-lt t s)))
    ∙ decode_word-join t s ht hs

-- The difference to a later reading of the same clock is exact when less than 2^32 milliseconds
-- have passed, also when the stamp's counter has wrapped in between.
pub latency_ms_lem :
    (sent elapsed : ℕ) → elapsed < 2 ^ 32 → latency_ms (sent + elapsed) (sent % 2 ^ 32) ≡ elapsed
unfolding latency_ms
latency_ms_lem sent elapsed h = omega arith
