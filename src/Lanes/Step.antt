-- ===== src/Lanes/Step.antt =====
-- The protocol of the two lanes as a step relation, which each routine of Lanes.antt follows.
use qcbridge.Prelude.{
  ℕ, suc, ◌+◌, ◌≤◌, ◌≡◌, refl, Bool, true, false, Option, none, some, List, [], ◌∷◌, ◌++◌, String,
  string_eq, ◌==◌, eqb, All, Bool-cases, Option-cases, inl, inr,
}
use qcbridge.Dict
use qcbridge.Dict.{get-put_self}
use qcbridge.FastLog.{log_sent}
use qcbridge.Lanes.{
  Lanes, Meta, mainfile, datablock, libfile, Chunk, Cold, chunk, link, unlink, lib_missing,
  resync_end, Fast, t1, tomb, fast_end, try_cold, try_fast, answer, cold_accepted, fast_accepted,
  refused, after_for, boot_sent, drain_boot, drain_lib, chunk_sent, drain_chunks, blob_shipped,
  drain_uuid, drain_uuids, drain_t2_outbox, send_cold_msg, send_logged, queue_blob,
}

-- A chunk of a bootstrap, of a library, of the blob of a datablock.
abbrev pub is_boot_meta : Meta → Bool
is_boot_meta (mainfile name project_dir digest) = true
is_boot_meta _ = false

abbrev pub is_lib_meta : Meta → Bool
is_lib_meta (libfile path sha1 name) = true
is_lib_meta _ = false

abbrev pub is_block_meta : String → Meta → Bool
is_block_meta uuid (datablock u name coll digest more) = u == uuid
is_block_meta uuid _ = false

-- The last chunk of its blob.
abbrev pub is_final : Chunk → Bool
is_final (h, payload) = elim h.blob [ none ↦ false | some b ↦ eqb (b.i + 1) b.n ]

-- "link", "unlink" and "lib_missing", the messages of `_send_cold_msg`.
abbrev pub is_link : Cold → Bool
is_link (link path objects collections) = true
is_link (unlink path) = true
is_link (lib_missing path why) = true
is_link _ = false

-- The uuid and the cold number that a fast message names.
abbrev pub names {ℓ} : {V : Type ℓ} → Fast V → Option (String × ℕ)
names (t1 uuid after full sd changes) = some (uuid, after)
names (tomb uuid after) = some (uuid, after)
names fast_end = none

-- The kind of a fast message, as the log has it.
abbrev pub kind_of {ℓ} : {V : Type ℓ} → Fast V → String
kind_of (t1 uuid after full sd changes) = "t1"
kind_of (tomb uuid after) = "tomb"
kind_of fast_end = "resync_end"

-- Chunks of one bootstrap: the last of them alone is final.
abbrev pub IsBoot : List Chunk → Type 0
IsBoot [] = Unit
IsBoot (c ∷ []) = is_boot_meta c.0.meta ≡ true
IsBoot (c ∷ d ∷ cs) = (is_boot_meta c.0.meta ≡ true) × (is_final c ≡ false) × IsBoot (d ∷ cs)

module _ {ℓ} {V : Type ℓ} where
  -- `fast_accepted`, recorded in the log.
  abbrev pub log_accepted : Lanes V → String → String → Fast V → Lanes V
  log_accepted l uuid kind m = record (fast_accepted l m) {
    fastlog = log_sent l.fastlog (record { seq = suc l.seq_fast; uuid = uuid; kind = kind });
  }

  -- What the sender may do at a time. A chunk leaves from the head of its outbox; a delta or a
  -- tombstone names a cold number no lower than what its datablock waits for.
  pub data Step (l : Lanes V) : Lanes V → Type ℓ where
    refusal : Step l (refused l)
    boot_chunk :
        (c : Chunk) (rest : List Chunk)
        → l.boot_outbox ≡ c ∷ rest
        → Step l (boot_sent (cold_accepted l (chunk c)) rest)
    lib_chunk :
        (c : Chunk) (rest : List Chunk)
        → l.lib_outbox ≡ c ∷ rest
        → Step l (record (cold_accepted l (chunk c)) { lib_outbox = rest })
    blob_chunk :
        (uuid : String) (c : Chunk) (rest : List Chunk)
        → Dict.get l.t2_outbox uuid ≡ some (c ∷ rest)
        → Step l (chunk_sent (cold_accepted l (chunk c)) uuid rest)
    blob_done : (uuid : String) → Step l (blob_shipped l uuid)
    link_msg :
        (m : Cold) → is_link m ≡ true → Step l (record (cold_accepted l m) { link_seq = suc l.seq })
    cold_end_msg : Step l (cold_accepted l resync_end)
    fast_end_msg : Step l (fast_accepted l fast_end)
    named_msg :
        (uuid kind : String) (after : ℕ) (m : Fast V)
        → names m ≡ some (uuid, after)
        → kind_of m ≡ kind
        → after_for l uuid ≤ after
        → Step l (log_accepted l uuid kind m)
    boot_queued :
        (chunks : List Chunk) (shipped : List String)
        → IsBoot chunks
        → Step l (record l { boot_outbox = chunks; shipped = shipped })
    lib_queued :
        (chunks : List Chunk)
        → All (λ c. is_lib_meta c.0.meta ≡ true) chunks
        → Step l (record l { lib_outbox = l.lib_outbox ++ chunks })
    blob_queued :
        (uuid : String) (chunks : List Chunk)
        → All (λ c. is_block_meta uuid c.0.meta ≡ true) chunks
        → Step l (queue_blob l uuid chunks)

  -- Any number of steps.
  pub data Steps (l : Lanes V) : Lanes V → Type ℓ where
    stay : Steps l l
    onward : (m n : Lanes V) → Steps l m → Step m n → Steps l n

  pub Steps-trans : {l m n : Lanes V} → Steps l m → Steps m n → Steps l n
  Steps-trans s stay = s
  Steps-trans s (onward k n t u) = onward k n (Steps-trans s t) u

  pub Steps-one : {l m : Lanes V} → Step l m → Steps l m
  Steps-one {l} {m} s = onward l m stay s

  pub outbox-boot_sent : (l : Lanes V) (rest : List Chunk) → (boot_sent l rest).boot_outbox ≡ rest
  unfolding boot_sent
  outbox-boot_sent l [] = refl
  outbox-boot_sent l (c ∷ rest) = refl

  pub drain_boot-Steps :
      (chunks : List Chunk) (l : Lanes V) → l.boot_outbox ≡ chunks → Steps l (drain_boot chunks l).0
  unfolding drain_boot
  drain_boot-Steps [] l h = stay
  drain_boot-Steps (c ∷ rest) l h = elim (Bool-cases (answer l.answers).1) [
    | inl ok ↦
        rw (drain_boot, try_cold, ok)
          (Steps-trans (Steps-one (boot_chunk c rest h)) (
            drain_boot-Steps rest (boot_sent (cold_accepted l (chunk c)) rest)
              (outbox-boot_sent (cold_accepted l (chunk c)) rest)))
    | inr busy ↦ rw (drain_boot, try_cold, busy) (Steps-one refusal)
  ]

  pub drain_lib-Steps :
      (chunks : List Chunk) (l : Lanes V) → l.lib_outbox ≡ chunks → Steps l (drain_lib chunks l).0
  unfolding drain_lib
  drain_lib-Steps [] l h = stay
  drain_lib-Steps (c ∷ rest) l h = elim (Bool-cases (answer l.answers).1) [
    | inl ok ↦
        rw (drain_lib, try_cold, ok)
          (Steps-trans (Steps-one (lib_chunk c rest h))
            (drain_lib-Steps rest (record (cold_accepted l (chunk c)) { lib_outbox = rest }) refl))
    | inr busy ↦ rw (drain_lib, try_cold, busy) (Steps-one refusal)
  ]

  outbox-chunk_sent :
      (l : Lanes V) (uuid : String) (rest : List Chunk)
      → Dict.get (chunk_sent l uuid rest).t2_outbox uuid ≡ some rest
  unfolding chunk_sent
  outbox-chunk_sent l uuid rest = get-put_self l.t2_outbox uuid rest

  drain_chunks-Steps :
      (uuid : String) (chunks : List Chunk) (l : Lanes V)
      → Dict.get l.t2_outbox uuid ≡ some chunks
      → Steps l (drain_chunks uuid chunks l).0
  unfolding drain_chunks
  drain_chunks-Steps uuid [] l h = stay
  drain_chunks-Steps uuid (c ∷ rest) l h = elim (Bool-cases (answer l.answers).1) [
    | inl ok ↦
        rw (drain_chunks, try_cold, ok)
          (Steps-trans (Steps-one (blob_chunk uuid c rest h)) (
            drain_chunks-Steps uuid rest (chunk_sent (cold_accepted l (chunk c)) uuid rest)
              (outbox-chunk_sent (cold_accepted l (chunk c)) uuid rest)))
    | inr busy ↦ rw (drain_chunks, try_cold, busy) (Steps-one refusal)
  ]

  pub drain_uuid-Steps : (l : Lanes V) (uuid : String) → Steps l (drain_uuid l uuid).0
  unfolding drain_uuid
  drain_uuid-Steps l uuid = elim (Option-cases (Dict.get l.t2_outbox uuid)) [
    | inl gone ↦ rw (drain_uuid, gone) stay
    | inr (chunks, queued) ↦ elim (Bool-cases (drain_chunks uuid chunks l).1) [
      | inl ok ↦
          rw (drain_uuid, queued, ok)
            (Steps-trans (drain_chunks-Steps uuid chunks l queued) (Steps-one (blob_done uuid)))
      | inr busy ↦ rw (drain_uuid, queued, busy) (drain_chunks-Steps uuid chunks l queued)
    ]
  ]

  drain_uuids-Steps : (l : Lanes V) (uuids : List String) → Steps l (drain_uuids l uuids).0
  unfolding drain_uuids
  drain_uuids-Steps l [] = stay
  drain_uuids-Steps l (uuid ∷ uuids) = elim (Bool-cases (drain_uuid l uuid).1) [
    | inl ok ↦
        rw (drain_uuids, ok)
          (Steps-trans (drain_uuid-Steps l uuid) (drain_uuids-Steps (drain_uuid l uuid).0 uuids))
    | inr busy ↦ rw (drain_uuids, busy) (drain_uuid-Steps l uuid)
  ]

  pub drain_t2_outbox-Steps : (l : Lanes V) → Steps l (drain_t2_outbox l).0
  unfolding drain_t2_outbox
  drain_t2_outbox-Steps l = drain_uuids-Steps l (Dict.keys l.t2_outbox)

  pub send_cold_msg-Steps :
      (l : Lanes V) (m : Cold) → is_link m ≡ true → Steps l (send_cold_msg l m).0
  unfolding send_cold_msg
  send_cold_msg-Steps l m h = elim (Bool-cases (answer l.answers).1) [
    | inl ok ↦ rw (send_cold_msg, try_cold, ok) (Steps-one (link_msg m h))
    | inr busy ↦ rw (send_cold_msg, try_cold, busy) (Steps-one refusal)
  ]

  pub cold_end-Steps : (l : Lanes V) → Steps l (try_cold l resync_end).0
  unfolding try_cold
  cold_end-Steps l = elim (Bool-cases (answer l.answers).1) [
    | inl ok ↦ rw (try_cold, ok) (Steps-one cold_end_msg)
    | inr busy ↦ rw (try_cold, busy) (Steps-one refusal)
  ]

  pub fast_end-Steps : (l : Lanes V) → Steps l (try_fast l fast_end).0
  unfolding try_fast
  fast_end-Steps l = elim (Bool-cases (answer l.answers).1) [
    | inl ok ↦ rw (try_fast, ok) (Steps-one fast_end_msg)
    | inr busy ↦ rw (try_fast, busy) (Steps-one refusal)
  ]

  pub send_logged-Steps :
      (l : Lanes V) (uuid kind : String) (after : ℕ) (m : Fast V)
      → names m ≡ some (uuid, after)
      → kind_of m ≡ kind
      → after_for l uuid ≤ after
      → Steps l (send_logged l uuid kind m).0
  unfolding send_logged
  send_logged-Steps l uuid kind after m h named le = elim (Bool-cases (answer l.answers).1) [
    | inl ok ↦ rw (send_logged, try_fast, ok) (Steps-one (named_msg uuid kind after m h named le))
    | inr busy ↦ rw (send_logged, try_fast, busy) (Steps-one refusal)
  ]
