-- ===== src/AgentLink.antt =====
-- The frames between Blender and its agent: `pack_cold`, `cold_parts`, `unpack_cold`, `_FrameLink` and
-- `_AgentLink` of qcbridge/ring1/transport_agent.py. A byte is a number; the socket is a stream of
-- bytes, whole when it ends. JSON is a parameter: `encode` is `json.dumps(..).encode`, and `decode`
-- gives `none` for what `protocol.decode_cold` refuses.
pub mod Roundtrip
pub mod Conflate
use qcbridge.Prelude.{
  ℕ, zero, suc, ◌+◌, ◌-◌, ◌*◌, ◌/◌, ◌%◌, ◌^◌, Bool, true, false, Option, none, some, List, [], ◌∷◌,
  ◌++◌, ltb, eqb, if◌then◌else◌, length, take, drop, map, Eq,
}
use qcbridge.Dict
use qcbridge.Blob.{Bytes}

-- `struct.pack(">I", n)`, for a number below 2^32; the source raises for a larger one.
unfoldable pub pack_u32 : ℕ → Bytes
pack_u32 n = n / 2 ^ 24 % 256 ∷ n / 2 ^ 16 % 256 ∷ n / 2 ^ 8 % 256 ∷ n % 256 ∷ []

-- `struct.unpack(">I", ..)` of the first four bytes
unfoldable pub unpack_u32 : Bytes → ℕ
unpack_u32 (a ∷ b ∷ c ∷ d ∷ _) = a * 2 ^ 24 + b * 2 ^ 16 + c * 2 ^ 8 + d
unpack_u32 _ = 0

-- `_PEER`
abbrev pub peer : Bytes
peer = 0 ∷ []

unfoldable pub concat : List Bytes → Bytes
concat [] = []
concat (part ∷ parts) = part ++ concat parts

-- `_frame`, for a body given as its parts
unfoldable pub frame : ℕ → List Bytes → List Bytes
unfolding pack_u32 concat
frame kind parts = (pack_u32 (length (concat parts) + 1) ++ kind ∷ []) ∷ parts

-- What the loops over `sendall` put on the socket: every part that is not empty.
unfoldable pub send_parts : List Bytes → Bytes
send_parts [] = []
send_parts ([] ∷ parts) = send_parts parts
send_parts ((b ∷ bs) ∷ parts) = (b ∷ bs) ++ send_parts parts

-- `_read_exact`
unfoldable pub read_exact : ℕ → Bytes → Option (Bytes × Bytes)
read_exact n stream = if ltb (length stream) n then none else some (take n stream, drop n stream)

-- The body of a frame of this length; a length of one or less has none.
unfoldable pub read_body : ℕ → Bytes → Option (Bytes × Bytes)
unfolding read_exact
read_body len stream = if ltb 1 len then read_exact (len - 1) stream else some ([], stream)

-- The kind and the body of the frame at the head of the stream.
unfoldable pub read_frame : Bytes → Option ((ℕ × Bytes) × Bytes)
unfolding read_body unpack_u32
read_frame (a ∷ b ∷ c ∷ d ∷ kind ∷ stream) =
    elim (read_body (unpack_u32 (a ∷ b ∷ c ∷ d ∷ [])) stream) [
      | none ↦ none
      | some (body, rest) ↦ some ((kind, body), rest)
    ]
read_frame _ = none

-- The frames that `_read_loop` hands to `_on_frame`; each round takes five bytes or more.
unfoldable pub read_loop : ℕ → Bytes → List (ℕ × Bytes)
unfolding read_frame
read_loop zero stream = []
read_loop (suc fuel) stream = elim (read_frame stream) [
  | none ↦ []
  | some (f, rest) ↦ f ∷ read_loop fuel rest
]

module _ {ℓ} {H : Type ℓ} (encode : H → Bytes) (decode : Bytes → Option H) where
  unfoldable pub pack_cold : H → Bytes → Bytes
  unfolding pack_u32
  pack_cold header payload = let head = encode header in pack_u32 (length head) ++ (head ++ payload)

  unfoldable pub cold_parts : H → Bytes → List Bytes
  unfolding pack_u32
  cold_parts header payload =
      let head = encode header in peer ∷ pack_u32 (length head) ∷ head ∷ payload ∷ []

  -- What follows the reading of the length.
  unfoldable pub unpack_at : ℕ → Bytes → Option (H × Bytes)
  unpack_at n body =
      if ltb (length body) (4 + n) then none else elim (decode (take n (drop 4 body))) [
        | none ↦ none
        | some header ↦ some (header, drop (4 + n) body)
      ]

  unfoldable pub unpack_cold : Bytes → Option (H × Bytes)
  unfolding unpack_u32 unpack_at
  unpack_cold body = if ltb (length body) 4 then none else unpack_at (unpack_u32 (take 4 body)) body

-- `_frames` and `_hot`: what waits for the writer. `K` is the type of the hot keys.
pub record Link {ℓ} (K : Type 0) (F : Type ℓ) : Type ℓ where
  pub frames : List F
  pub hot : List (K × F)

abbrev pub second {ℓ} : {K : Type 0} {F : Type ℓ} → K × F → F
second (k, f) = f

module _ {ℓ} {K : Type 0} ⦃e : Eq K⦄ {F : Type ℓ} where
  -- `send`
  unfoldable pub send : Link K F → F → Link K F
  send l f = record l { frames = l.frames ++ f ∷ [] }

  -- `send_hot`
  unfoldable pub send_hot : Link K F → K → F → Link K F
  unfolding Dict.put
  send_hot l key f = record l { hot = Dict.put l.hot key f }

  -- What one round of `_write_loop` takes, and what it leaves.
  unfoldable pub take_batch : Link K F → Link K F × List F
  take_batch l = (record { frames = []; hot = [] }, l.frames ++ map second l.hot)
