-- ===== src/Lanes/Queued.antt =====
-- What waits in the outboxes: each holds chunks of its own kind, on every run of the protocol.
use text.Mathlib.TextEquality.{eq_iff}
use qcbridge.Prelude.{
  ◌≡◌, true, some, List, [], ◌∷◌, ◌++◌, String, string_eq, ◌==◌, arith, All, Bool-cases, inl, inr,
}
use qcbridge.Dict
use qcbridge.Dict.{get-put, get-remove}
use qcbridge.Lanes.{
  Lanes, Chunk, chunk, cold_accepted, boot_sent, chunk_sent, blob_shipped, queue_blob,
}
use qcbridge.Lanes.Step.{
  Step, refusal, boot_chunk, lib_chunk, blob_chunk, blob_done, link_msg, cold_end_msg, fast_end_msg,
  named_msg, boot_queued, lib_queued, blob_queued, is_boot_meta, is_lib_meta, is_block_meta, IsBoot,
}

IsBoot-tail : (c : Chunk) (rest : List Chunk) → IsBoot (c ∷ rest) → IsBoot rest
IsBoot-tail c [] h = tt
IsBoot-tail c (d ∷ rest) h = h.2

pub IsBoot-head : (c : Chunk) (rest : List Chunk) → IsBoot (c ∷ rest) → is_boot_meta c.0.meta ≡ true
IsBoot-head c [] h = h
IsBoot-head c (d ∷ rest) h = h.0

All-append {κ} : (P : Chunk → Type κ) (xs ys : List Chunk) → All P xs → All P ys → All P (xs ++ ys)
All-append P [] ys h g = g
All-append P (x ∷ xs) ys h g = (h.0, All-append P xs ys h.1 g)

-- An outbox with the entry of one uuid replaced.
blobs-put :
    (outbox : List (String × List Chunk)) (uuid : String) (new : List Chunk)
    → ((u : String) (chunks : List Chunk)
        → Dict.get outbox u ≡ some chunks
        → All (λ c. is_block_meta u c.0.meta ≡ true) chunks)
    → All (λ c. is_block_meta uuid c.0.meta ≡ true) new
    → (u : String) (chunks : List Chunk) → Dict.get (Dict.put outbox uuid new) u ≡ some chunks
    → All (λ c. is_block_meta u c.0.meta ≡ true) chunks
blobs-put outbox uuid new old fresh u chunks h = elim (Bool-cases (uuid == u)) [
  | inl same ↦
      let e : uuid ≡ u = (eq_iff uuid u).0 same in
      let c : some new ≡ some chunks = rw (get-put outbox uuid new u, same) at h in
      let d : new ≡ chunks = cc c in rw (← e, ← d) fresh
  | inr other ↦ old u chunks (rw (get-put outbox uuid new u, other) at h)
]

module _ {ℓ} {V : Type ℓ} where
  -- Each outbox holds chunks of its own kind.
  pub record Owned (l : Lanes V) : Type 0 where
    pub boots : IsBoot l.boot_outbox
    pub libs : All (λ c. is_lib_meta c.0.meta ≡ true) l.lib_outbox
    pub blobs :
        (uuid : String) (chunks : List Chunk)
        → Dict.get l.t2_outbox uuid ≡ some chunks
        → All (λ c. is_block_meta uuid c.0.meta ≡ true) chunks

  Owned-boot_sent :
      (l : Lanes V) (rest : List Chunk) → IsBoot rest → Owned l → Owned (boot_sent l rest)
  unfolding boot_sent
  Owned-boot_sent l [] b s = record { boots = b; libs = s.libs; blobs = s.blobs }
  Owned-boot_sent l (c ∷ rest) b s = record { boots = b; libs = s.libs; blobs = s.blobs }

  pub Owned-step : (l m : Lanes V) → Step l m → Owned l → Owned m
  unfolding chunk_sent blob_shipped queue_blob
  Owned-step l _ refusal s = record { boots = s.boots; libs = s.libs; blobs = s.blobs }
  Owned-step l _ (boot_chunk c rest h) s =
      Owned-boot_sent (cold_accepted l (chunk c)) rest (IsBoot-tail c rest (rw h at s.boots))
        (record { boots = s.boots; libs = s.libs; blobs = s.blobs })
  Owned-step l _ (lib_chunk c rest h) s = record {
    boots = s.boots;
    libs = (rw h at s.libs).1;
    blobs = s.blobs;
  }
  Owned-step l _ (blob_chunk uuid c rest h) s = record {
    boots = s.boots;
    libs = s.libs;
    blobs = blobs-put l.t2_outbox uuid rest s.blobs (s.blobs uuid (c ∷ rest) h).1;
  }
  Owned-step l _ (blob_done uuid) s = record {
    boots = s.boots;
    libs = s.libs;
    blobs = λ u chunks h. s.blobs u chunks (ground (arith, get-remove l.t2_outbox uuid u));
  }
  Owned-step l _ (link_msg m h) s = record { boots = s.boots; libs = s.libs; blobs = s.blobs }
  Owned-step l _ cold_end_msg s = record { boots = s.boots; libs = s.libs; blobs = s.blobs }
  Owned-step l _ fast_end_msg s = record { boots = s.boots; libs = s.libs; blobs = s.blobs }
  Owned-step l _ (named_msg uuid kind after m h named le) s = record {
    boots = s.boots;
    libs = s.libs;
    blobs = s.blobs;
  }
  Owned-step l _ (boot_queued chunks shipped h) s = record {
    boots = h;
    libs = s.libs;
    blobs = s.blobs;
  }
  Owned-step l _ (lib_queued chunks h) s = record {
    boots = s.boots;
    libs = All-append (λ c. is_lib_meta c.0.meta ≡ true) l.lib_outbox chunks s.libs h;
    blobs = s.blobs;
  }
  Owned-step l _ (blob_queued uuid chunks h) s = record {
    boots = s.boots;
    libs = s.libs;
    blobs = blobs-put l.t2_outbox uuid chunks s.blobs h;
  }
