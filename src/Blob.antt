-- ===== src/Blob.antt =====
-- `chunk_blob` and `Reassembler` of qcbridge/ring1/protocol.py. A byte is a number; `M` stands for
-- the entries that `meta` adds to each header, which are neither "kind" nor "blob".
pub mod Bytes
pub mod Parts
pub mod Roundtrip
use qcbridge.Prelude.{
  ℕ, zero, suc, ◌+◌, ◌-◌, ◌*◌, ◌/◌, Bool, Option, none, some, List, [], ◌∷◌, ◌++◌, String,
  string_eq, nat_eq, ltb, if◌then◌else◌, length, take, drop, replicate,
}
use Prim.Native.Nat.{max}
use qcbridge.Dict
use qcbridge.KeySet.{add}

-- The header's entry "blob"; `o` may be absent.
pub record BlobRef : Type 0 where
  pub id : String
  pub i : ℕ
  pub n : ℕ
  pub size : ℕ
  pub o : Option ℕ

pub record Header {ℓ} (M : Type ℓ) : Type ℓ where
  pub kind : String
  pub blob : Option BlobRef
  pub meta : M

abbrev pub Bytes : Type 0
Bytes = List ℕ

-- `data[start : start + size]`
unfoldable pub slice : Bytes → ℕ → ℕ → Bytes
slice bytes start size = take size (drop start bytes)

-- `max(1, -(-len(data) // chunk_size))`: the quotient rounded up.
unfoldable pub total_of : ℕ → ℕ → ℕ
total_of size chunk_size = max 1 ((size + chunk_size - 1) / chunk_size)

-- `_PartialBlob`
pub record PartialBlob {ℓ} (M : Type ℓ) : Type ℓ where
  pub total : ℕ
  pub size : ℕ
  pub header : Header M
  pub buf : Bytes
  pub got : List ℕ

-- `buf[offset:offset + len(payload)] = payload`, inside the buffer
unfoldable pub splice : Bytes → ℕ → Bytes → Bytes
splice buf offset payload = take offset buf ++ (payload ++ drop (offset + length payload) buf)

-- `blob.get("o", i * len(payload))`
unfoldable pub offset_of : BlobRef → Bytes → ℕ
offset_of b payload = elim b.o [ none ↦ b.i * length payload | some offset ↦ offset ]

module _ {ℓ} {M : Type ℓ} where
  -- The `i`-th pair that `chunk_blob` yields.
  unfoldable pub chunk : String → String → Bytes → M → ℕ → ℕ → Header M × Bytes
  unfolding slice total_of
  chunk kind id bytes meta chunk_size i = (
    record {
      kind = kind;
      blob = some (record {
        id = id;
        i = i;
        n = total_of (length bytes) chunk_size;
        size = length bytes;
        o = some (i * chunk_size);
      });
      meta = meta;
    },
    slice bytes (i * chunk_size) chunk_size,
  )

  -- `for i in range(total)`, from the `i` given, `count` times.
  unfoldable pub chunks_from : String → String → Bytes → M → ℕ → ℕ → ℕ → List (Header M × Bytes)
  unfolding chunk
  chunks_from kind id bytes meta chunk_size i zero = []
  chunks_from kind id bytes meta chunk_size i (suc count) =
      chunk kind id bytes meta chunk_size i
      ∷ chunks_from kind id bytes meta chunk_size (i + 1) count

  unfoldable pub chunk_blob : String → String → Bytes → M → ℕ → List (Header M × Bytes)
  unfolding chunks_from total_of
  chunk_blob kind id bytes meta chunk_size =
      chunks_from kind id bytes meta chunk_size 0 (total_of (length bytes) chunk_size)

  -- The new `_PartialBlob` of a blob's first chunk.
  abbrev pub fresh : BlobRef → Header M → PartialBlob M
  fresh b header = record {
    total = b.n;
    size = b.size;
    header = header;
    buf = replicate b.size 0;
    got = [];
  }

  -- `self._partial.get(blob_id)`, or a new one.
  unfoldable pub part_of : List (String × PartialBlob M) → BlobRef → Header M → PartialBlob M
  unfolding Dict.get
  part_of partial b header = elim (Dict.get partial b.id) [
    | none ↦ fresh b header
    | some part ↦ part
  ]

  -- The part after its chunk is copied in and counted.
  unfoldable pub filled : PartialBlob M → BlobRef → Bytes → PartialBlob M
  unfolding splice offset_of add
  filled part b payload = record part {
    buf = splice part.buf (offset_of b payload) payload;
    got = add part.got b.i;
  }

  unfoldable pub feed_chunk :
      List (String × PartialBlob M)
      → BlobRef
      → PartialBlob M
      → Bytes
      → List (String × PartialBlob M) × Option (Header M × Bytes)
  unfolding filled Dict.put Dict.remove
  feed_chunk partial b part payload =
      if ltb part.size (offset_of b payload + length payload)
      then (Dict.remove partial b.id, none)
      else if ltb (length (filled part b payload).got) part.total
      then (Dict.put partial b.id (filled part b payload), none)
      else (Dict.remove partial b.id, some (part.header, (filled part b payload).buf))

  unfoldable pub feed :
      List (String × PartialBlob M)
      → Header M
      → Bytes
      → List (String × PartialBlob M) × Option (Header M × Bytes)
  unfolding feed_chunk part_of
  feed partial header payload = elim header.blob [
    | none ↦ (partial, some (header, payload))
    | some b ↦ feed_chunk partial b (part_of partial b header) payload
  ]

  unfoldable pub discard_blob :
      List (String × PartialBlob M) → String → List (String × PartialBlob M)
  unfolding Dict.remove
  discard_blob partial id = Dict.remove partial id

  unfoldable pub pending : List (String × PartialBlob M) → ℕ
  pending partial = length partial
