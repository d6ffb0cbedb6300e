-- ===== src/Lanes.antt =====
-- The sending half of `HostSync` of qcbridge/ring0/host_handlers.py: the two numbered lanes, the
-- outboxes that wait for them, and the marks that order one lane after the other. `send_cold` and
-- `send_fast` of the transport are calls of other code: whether each of them is accepted is read
-- off a list of answers, and a call beyond its end is refused. What was accepted stays in `wire`,
-- newest first.
pub mod Step
pub mod Order
pub mod Queued
pub mod Window
use Prim.Native.Nat.{max}
use qcbridge.Prelude.{
  ℕ, suc, ◌+◌, Bool, true, false, Option, none, some, List, [], ◌∷◌, ◌++◌, String, string_eq, ◌==◌,
  if◌then◌else◌,
}
use qcbridge.Dict
use qcbridge.KeySet.{add}
use qcbridge.Blob
use qcbridge.Blob.{Bytes}
use qcbridge.FastLog
use qcbridge.FastLog.{FastLog, log_sent}
use qcbridge.Shadow.{Snapshot}

-- The entries of `meta` of the three kinds of blob.
pub data Meta : Type 0 where
  mainfile : String → String → String → Meta
  datablock : String → String → Option String → String → Bool → Meta
  libfile : String → String → String → Meta

abbrev pub Chunk : Type 0
Chunk = Blob.Header Meta × Bytes

-- A message of the cold lane, less its number.
pub data Cold : Type 0 where
  chunk : Chunk → Cold
  link : String → List String → List String → Cold
  unlink : String → Cold
  lib_missing : String → String → Cold
  resync_end : Cold

-- A message of the fast lane, less its number; `t1` is of a uuid, behind a cold number, with the
-- entries "full" and "sd" and the changes.
pub data Fast {ℓ} (V : Type ℓ) : Type ℓ where
  t1 : String → ℕ → Bool → Option String → Snapshot V → Fast V
  tomb : String → ℕ → Fast V
  fast_end : Fast V

pub data Packet {ℓ} (V : Type ℓ) : Type ℓ where
  cold : ℕ → Cold → Packet V
  fast : ℕ → Fast V → Packet V

-- The fields of `HostSync` that decide what leaves.
pub record Lanes {ℓ} (V : Type ℓ) : Type ℓ where
  pub seq : ℕ
  pub seq_fast : ℕ
  pub boot_outbox : List Chunk
  pub lib_outbox : List Chunk
  pub t2_outbox : List (String × List Chunk)
  pub uuid_cold_seq : List (String × ℕ)
  pub boot_last_seq : ℕ
  pub link_seq : ℕ
  pub fastlog : FastLog
  pub shipped : List String
  pub answers : List Bool
  pub wire : List (Packet V)

-- The transport's next answer, and those behind it.
abbrev pub answer : List Bool → List Bool × Bool
answer [] = ([], false)
answer (accepted ∷ answers) = (answers, accepted)

module _ {ℓ} {V : Type ℓ} where
  -- `__init__`, before a transport that will give these answers
  abbrev pub init : ℕ → List Bool → Lanes V
  init capacity answers = record {
    seq = 0;
    seq_fast = 0;
    boot_outbox = [];
    lib_outbox = [];
    t2_outbox = [];
    uuid_cold_seq = [];
    boot_last_seq = 0;
    link_seq = 0;
    fastlog = FastLog.init capacity;
    shipped = [];
    answers = answers;
    wire = [];
  }

  -- The lanes after an accepted message, before anything else is assigned.
  abbrev pub cold_accepted : Lanes V → Cold → Lanes V
  cold_accepted l m = record l {
    answers = (answer l.answers).0;
    seq = suc l.seq;
    wire = cold (suc l.seq) m ∷ l.wire;
  }

  abbrev pub fast_accepted : Lanes V → Fast V → Lanes V
  fast_accepted l m = record l {
    answers = (answer l.answers).0;
    seq_fast = suc l.seq_fast;
    wire = fast (suc l.seq_fast) m ∷ l.wire;
  }

  abbrev pub refused : Lanes V → Lanes V
  refused l = record l { answers = (answer l.answers).0 }

  -- `self.seq += 1`, the call, and `self.seq -= 1` on a refusal.
  unfoldable pub try_cold : Lanes V → Cold → Lanes V × Bool
  try_cold l m = if (answer l.answers).1 then (cold_accepted l m, true) else (refused l, false)

  -- The same on the fast lane.
  unfoldable pub try_fast : Lanes V → Fast V → Lanes V × Bool
  try_fast l m = if (answer l.answers).1 then (fast_accepted l m, true) else (refused l, false)

  -- `self._uuid_cold_seq.get(uuid, 0)`
  unfoldable pub cold_seq_of : Lanes V → String → ℕ
  unfolding Dict.get
  cold_seq_of l uuid = elim (Dict.get l.uuid_cold_seq uuid) [ none ↦ 0 | some seq ↦ seq ]

  unfoldable pub after_for : Lanes V → String → ℕ
  unfolding cold_seq_of
  after_for l uuid = max (cold_seq_of l uuid) (max l.boot_last_seq l.link_seq)

  -- What follows an accepted chunk of the bootstrap; `rest` are the chunks behind it.
  unfoldable pub boot_sent : Lanes V → List Chunk → Lanes V
  boot_sent l [] = record l { boot_outbox = []; boot_last_seq = l.seq; uuid_cold_seq = [] }
  boot_sent l (c ∷ rest) = record l { boot_outbox = c ∷ rest }

  -- The first loop of `_flush_tick_inner`: `false` is its early return.
  unfoldable pub drain_boot : List Chunk → Lanes V → Lanes V × Bool
  unfolding try_cold boot_sent
  drain_boot [] l = (l, true)
  drain_boot (c ∷ rest) l =
      let (l', accepted) = try_cold l (chunk c) in
      let later = drain_boot rest (boot_sent l' rest) in if accepted then later else (l', false)

  -- The second loop, of `_lib_outbox`.
  unfoldable pub drain_lib : List Chunk → Lanes V → Lanes V × Bool
  unfolding try_cold
  drain_lib [] l = (l, true)
  drain_lib (c ∷ rest) l =
      let (l', accepted) = try_cold l (chunk c) in
      let later = drain_lib rest (record l' { lib_outbox = rest }) in
      if accepted then later else (l', false)

  -- What follows an accepted chunk of a datablock's blob.
  unfoldable pub chunk_sent : Lanes V → String → List Chunk → Lanes V
  unfolding Dict.put
  chunk_sent l uuid rest = record l {
    t2_outbox = Dict.put l.t2_outbox uuid rest;
    uuid_cold_seq = Dict.put l.uuid_cold_seq uuid l.seq;
  }

  -- The `while chunks` loop of `_drain_t2_outbox`.
  unfoldable pub drain_chunks : String → List Chunk → Lanes V → Lanes V × Bool
  unfolding try_cold chunk_sent
  drain_chunks uuid [] l = (l, true)
  drain_chunks uuid (c ∷ rest) l =
      let (l', accepted) = try_cold l (chunk c) in
      let later = drain_chunks uuid rest (chunk_sent l' uuid rest) in
      if accepted then later else (l', false)

  -- `del self._t2_outbox[uuid]` and `self._shipped.add(uuid)`
  unfoldable pub blob_shipped : Lanes V → String → Lanes V
  unfolding Dict.remove add
  blob_shipped l uuid = record l {
    t2_outbox = Dict.remove l.t2_outbox uuid;
    shipped = add l.shipped uuid;
  }

  -- The body of `_drain_t2_outbox` for one key.
  unfoldable pub drain_uuid : Lanes V → String → Lanes V × Bool
  unfolding Dict.get drain_chunks blob_shipped
  drain_uuid l uuid = elim (Dict.get l.t2_outbox uuid) [
    | none ↦ (l, true)
    | some chunks ↦
        let (l', done) = drain_chunks uuid chunks l in
        if done then (blob_shipped l' uuid, true) else (l', false)
  ]

  -- `for uuid in list(self._t2_outbox)`
  unfoldable pub drain_uuids : Lanes V → List String → Lanes V × Bool
  unfolding drain_uuid
  drain_uuids l [] = (l, true)
  drain_uuids l (uuid ∷ uuids) =
      let (l', done) = drain_uuid l uuid in
      let later = drain_uuids l' uuids in if done then later else (l', false)

  -- `_drain_t2_outbox()`; with `only` it is `drain_uuid`.
  unfoldable pub drain_t2_outbox : Lanes V → Lanes V × Bool
  unfolding drain_uuids
  drain_t2_outbox l = drain_uuids l (Dict.keys l.t2_outbox)

  unfoldable pub send_cold_msg : Lanes V → Cold → Lanes V × Bool
  unfolding try_cold
  send_cold_msg l m =
      let (l', accepted) = try_cold l m in
      if accepted then (record l' { link_seq = l'.seq }, true) else (l', false)

  -- `self.fastlog.record(self.seq_fast, uuid, kind)` behind an accepted send.
  unfoldable pub send_logged : Lanes V → String → String → Fast V → Lanes V × Bool
  unfolding try_fast log_sent
  send_logged l uuid kind m =
      let (l', accepted) = try_fast l m in
      if accepted
      then (
        record l' {
          fastlog = log_sent l'.fastlog (record { seq = l'.seq_fast; uuid = uuid; kind = kind });
        },
        true,
      )
      else (l', false)

  -- `self._t2_outbox[uuid] = list(protocol.chunk_blob(...))`
  unfoldable pub queue_blob : Lanes V → String → List Chunk → Lanes V
  unfolding Dict.put
  queue_blob l uuid chunks = record l { t2_outbox = Dict.put l.t2_outbox uuid chunks }
