-- ===== src/AgentLink/Roundtrip.antt =====
-- What is framed comes back from the stream.
use mathlib.Core.List.{append-nil}
use qcbridge.Prelude.{
  ℕ, zero, suc, ◌+◌, ◌-◌, ◌^◌, ◌≤◌, ◌<◌, ◌≡◌, refl, ap, ◌∙◌, true, false, Option, none, some, List,
  [], ◌∷◌, ◌++◌, ltb, length, take, drop, length-append, arith, All, map,
}
use qcbridge.Blob.{Bytes}
use qcbridge.AgentLink.{
  pack_u32, unpack_u32, concat, frame, send_parts, read_exact, read_body, read_frame, read_loop,
  peer, pack_cold, cold_parts, unpack_at, unpack_cold,
}

take-append : (xs ys : Bytes) → take (length xs) (xs ++ ys) ≡ xs
take-append [] ys = refl
take-append (x ∷ xs) ys = ap (◌∷◌ x) (take-append xs ys)

drop-append : (xs ys : Bytes) → drop (length xs) (xs ++ ys) ≡ ys
drop-append [] ys = refl
drop-append (x ∷ xs) ys = drop-append xs ys

unpack_u32-pack_u32 : (n : ℕ) → n < 2 ^ 32 → unpack_u32 (pack_u32 n) ≡ n
unfolding pack_u32 unpack_u32
unpack_u32-pack_u32 n h = omega arith

send_parts-concat : (parts : List Bytes) → send_parts parts ≡ concat parts
unfolding send_parts concat
send_parts-concat [] = refl
send_parts-concat ([] ∷ parts) = send_parts-concat parts
send_parts-concat ((b ∷ bs) ∷ parts) = ap (◌++◌ (b ∷ bs)) (send_parts-concat parts)

-- A frame is sent in parts, and arrives as its kind and the parts joined.
pub record Sent : Type 0 where
  pub kind : ℕ
  pub parts : List Bytes

-- What the writer puts on the socket for these frames.
unfoldable pub stream_of : List Sent → Bytes
stream_of [] = []
stream_of (f ∷ fs) = send_parts (frame f.kind f.parts) ++ stream_of fs

abbrev pub arrived : Sent → ℕ × Bytes
arrived f = (f.kind, concat f.parts)

read_body-append :
    (body rest : Bytes) → read_body (length body + 1) (body ++ rest) ≡ some (body, rest)
unfolding read_body read_exact
read_body-append [] rest = refl
read_body-append (b ∷ bs) rest =
    let e : length (b ∷ bs) + 1 - 1 ≡ length (b ∷ bs) = omega arith in
    let long : ltb (length ((b ∷ bs) ++ rest)) (length (b ∷ bs)) ≡ false =
      ground (arith, length-append (b ∷ bs) rest) in
    let more : ltb 1 (length (b ∷ bs) + 1) ≡ true = ground arith in
    rw (more, e, long, take-append (b ∷ bs) rest, drop-append (b ∷ bs) rest) refl

abbrev with_kind : ℕ → Option (Bytes × Bytes) → Option ((ℕ × Bytes) × Bytes)
with_kind kind none = none
with_kind kind (some (body, rest)) = some ((kind, body), rest)

read_frame-pack_u32 :
    (n kind : ℕ) (stream : Bytes)
    → n < 2 ^ 32
    → read_frame (pack_u32 n ++ kind ∷ stream) ≡ with_kind kind (read_body n stream)
unfolding read_frame pack_u32
read_frame-pack_u32 n kind stream h =
    ap (λ (k : ℕ). read_as k) (unpack_u32-pack_u32 n h) ∙ kinds (read_body n stream)
  where
    read_as : ℕ → Option ((ℕ × Bytes) × Bytes)
    read_as k = elim (read_body k stream) [
      | none ↦ none
      | some (body, rest) ↦ some ((kind, body), rest)
    ]

    kinds :
        (r : Option (Bytes × Bytes))
        → elim r [ none ↦ none | some (body, rest) ↦ some ((kind, body), rest) ] ≡ with_kind kind r
    kinds none = refl
    kinds (some (body, rest)) = refl

send_parts-frame :
    (f : Sent) (rest : Bytes)
    → send_parts (frame f.kind f.parts) ++ rest
      ≡ pack_u32 (length (concat f.parts) + 1) ++ f.kind ∷ (concat f.parts ++ rest)
unfolding send_parts frame pack_u32
send_parts-frame f rest = rw (send_parts-concat f.parts) refl

-- The length of a frame fits its four bytes.
abbrev pub Fits : Sent → Type 0
Fits f = length (concat f.parts) + 1 < 2 ^ 32

read_frame-send :
    (f : Sent) (rest : Bytes)
    → Fits f
    → read_frame (send_parts (frame f.kind f.parts) ++ rest) ≡ some (arrived f, rest)
read_frame-send f rest h =
    rw
      (
        send_parts-frame f rest,
        read_frame-pack_u32 (length (concat f.parts) + 1) f.kind (concat f.parts ++ rest) h,
        read_body-append (concat f.parts) rest,
      )
      refl

length-frame : (f : Sent) → 1 ≤ length (send_parts (frame f.kind f.parts))
unfolding send_parts frame pack_u32
length-frame f = omega arith

length-stream_of : (fs : List Sent) → length fs ≤ length (stream_of fs)
unfolding stream_of
length-stream_of [] = omega arith
length-stream_of (f ∷ fs) = omega (
  arith,
  length-append (send_parts (frame f.kind f.parts)) (stream_of fs),
  length-frame f,
  length-stream_of fs,
)

read_loop-nil : (fuel : ℕ) → read_loop fuel [] ≡ []
unfolding read_loop read_frame
read_loop-nil zero = refl
read_loop-nil (suc fuel) = refl

read_loop-step :
    (fuel : ℕ) (stream rest : Bytes) (f : ℕ × Bytes)
    → read_frame stream ≡ some (f, rest)
    → read_loop (suc fuel) stream ≡ f ∷ read_loop fuel rest
unfolding read_loop
read_loop-step fuel stream rest f e = rw (e, read_loop) refl

read_loop-fuel :
    (fuel : ℕ) (fs : List Sent)
    → All Fits fs
    → length fs ≤ fuel
    → read_loop fuel (stream_of fs) ≡ map arrived fs
unfolding stream_of
read_loop-fuel fuel [] all h = read_loop-nil fuel
read_loop-fuel zero (f ∷ fs) all h = absurd (omega arith)
read_loop-fuel (suc fuel) (f ∷ fs) all h =
    read_loop-step fuel _ (stream_of fs) (arrived f) (read_frame-send f (stream_of fs) all.0)
    ∙ ap (◌∷◌ (arrived f)) (read_loop-fuel fuel fs all.1 (omega arith))

-- Frames whose lengths fit four bytes, written one after the other, each in parts of any sizes, are
-- read back in order, each with its kind and its parts joined; as many rounds as there are bytes
-- are enough.
pub read_loop-stream_of :
    (fs : List Sent)
    → All Fits fs
    → read_loop (length (stream_of fs)) (stream_of fs) ≡ map arrived fs
read_loop-stream_of fs all = read_loop-fuel (length (stream_of fs)) fs all (length-stream_of fs)

module _ {ℓ} {H : Type ℓ} (encode : H → Bytes) (decode : Bytes → Option H) where
  unpack_at-append :
      (a b c d : ℕ) (head payload : Bytes) (header : H)
      → decode head ≡ some header
      → unpack_at encode decode (length head) (a ∷ b ∷ c ∷ d ∷ (head ++ payload))
        ≡ some (header, payload)
  unfolding unpack_at
  unpack_at-append a b c d head payload header reads =
      let e : 4 + length head ≡ suc (suc (suc (suc (length head)))) = omega arith in
      let body = a ∷ b ∷ c ∷ d ∷ (head ++ payload) in
      let left : drop (4 + length head) body ≡ payload =
        ap (λ (k : ℕ). drop k body) e ∙ drop-append head payload in
      let long : ltb (length body) (4 + length head) ≡ false =
        ground (arith, length-append head payload) in
      rw (long, take-append head payload, reads, left) refl

  unpack-append :
      (head payload : Bytes) (header : H)
      → length head < 2 ^ 32
      → decode head ≡ some header
      → unpack_cold encode decode (pack_u32 (length head) ++ (head ++ payload))
        ≡ some (header, payload)
  unfolding unpack_cold pack_u32
  unpack-append head payload header h reads =
      let long : ltb (length (pack_u32 (length head) ++ (head ++ payload))) 4 ≡ false =
        ground arith in
      rw long (
        ap (λ (n : ℕ). unpack_at encode decode n (pack_u32 (length head) ++ (head ++ payload)))
          (unpack_u32-pack_u32 (length head) h)
        ∙ unpack_at-append _ _ _ _ head payload header reads)

  -- The parts of a cold frame, after the byte of the peer, are the packed message; and when a
  -- header's JSON text fits its length field and reads back as the header, unpacking gives the
  -- header and the payload.
  pub unpack_cold-pack_cold :
      (header : H) (payload : Bytes)
      → length (encode header) < 2 ^ 32
      → decode (encode header) ≡ some header
      → (concat (cold_parts encode decode header payload)
          ≡ peer ++ pack_cold encode decode header payload)
        × (unpack_cold encode decode (pack_cold encode decode header payload)
            ≡ some (header, payload))
  unfolding cold_parts pack_cold concat
  unpack_cold-pack_cold header payload h reads = (
    ap (λ (end : Bytes). peer ++ (pack_u32 (length (encode header)) ++ (encode header ++ end)))
        (append-nil payload),
    unpack-append (encode header) payload header h reads,
  )
