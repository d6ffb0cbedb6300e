-- ===== src/Lanes/Order.antt =====
-- The order of the two lanes: on every run of the protocol the numbers have no hole, and no delta
-- or tombstone may be applied before the cold messages that it builds on.
use Prim.Native.Nat.{max}
use text.Mathlib.TextEquality.{eq_iff}
use qcbridge.Prelude.{
  ℕ, zero, suc, ◌≤◌, ◌≡◌, refl, ◌∙◌, sym, ap, Bool, true, false, Option, none, some, List, [], ◌∷◌,
  String, string_eq, ◌==◌, arith, if◌then◌else◌, Bool-cases, inl, inr,
}
use qcbridge.Dict
use qcbridge.Dict.{get-put, get-remove}
use qcbridge.Lanes
use qcbridge.Lanes.{
  Lanes, Meta, mainfile, datablock, libfile, Chunk, Cold, chunk, link, unlink, lib_missing,
  resync_end, Fast, t1, tomb, fast_end, Packet, cold, fast, answer, cold_accepted, fast_accepted,
  refused, cold_seq_of, after_for, boot_sent, chunk_sent, blob_shipped, queue_blob,
}
use qcbridge.Lanes.Queued.{Owned, Owned-step}
use qcbridge.Lanes.Step.{
  Step, refusal, boot_chunk, lib_chunk, blob_chunk, blob_done, link_msg, cold_end_msg, fast_end_msg,
  named_msg, boot_queued, lib_queued, blob_queued, Steps, stay, onward, is_boot_meta, is_lib_meta,
  is_block_meta, is_final, is_link, names, IsBoot,
}

-- `n`, `n - 1`, down to 1.
abbrev pub countdown : ℕ → List ℕ
countdown zero = []
countdown (suc n) = suc n ∷ countdown n

abbrev pub is_boot : Cold → Bool
is_boot (chunk c) = is_boot_meta c.0.meta
is_boot _ = false

abbrev pub is_blob : String → Cold → Bool
is_blob uuid (chunk c) = is_block_meta uuid c.0.meta
is_blob uuid _ = false

block_not_boot : (uuid : String) (m : Meta) → is_block_meta uuid m ≡ true → is_boot_meta m ≡ false
block_not_boot uuid (datablock u name coll digest more) h = refl
block_not_boot uuid (mainfile name project_dir digest) h = absurd (cc h)
block_not_boot uuid (libfile path sha1 name) h = absurd (cc h)

boot_not_block : (uuid : String) (m : Meta) → is_boot_meta m ≡ true → is_block_meta uuid m ≡ false
boot_not_block uuid (mainfile name project_dir digest) h = refl
boot_not_block uuid (datablock u name coll digest more) h = absurd (cc h)
boot_not_block uuid (libfile path sha1 name) h = absurd (cc h)

lib_not_boot : (m : Meta) → is_lib_meta m ≡ true → is_boot_meta m ≡ false
lib_not_boot (libfile path sha1 name) h = refl
lib_not_boot (mainfile name project_dir digest) h = absurd (cc h)
lib_not_boot (datablock u name coll digest more) h = absurd (cc h)

lib_not_block : (uuid : String) (m : Meta) → is_lib_meta m ≡ true → is_block_meta uuid m ≡ false
lib_not_block uuid (libfile path sha1 name) h = refl
lib_not_block uuid (mainfile name project_dir digest) h = absurd (cc h)
lib_not_block uuid (datablock u name coll digest more) h = absurd (cc h)

one_block : (u v : String) (m : Meta) → is_block_meta u m ≡ true → is_block_meta v m ≡ true → u ≡ v
one_block u v (datablock w name coll digest more) h g = sym ((eq_iff w u).0 h) ∙ (eq_iff w v).0 g
one_block u v (mainfile name project_dir digest) h g = absurd (cc h)
one_block u v (libfile path sha1 name) h g = absurd (cc h)

link_not_boot : (m : Cold) → is_link m ≡ true → is_boot m ≡ false
link_not_boot (chunk c) h = absurd (cc h)
link_not_boot _ h = refl

link_not_blob : (uuid : String) (m : Cold) → is_link m ≡ true → is_blob uuid m ≡ false
link_not_blob uuid (chunk c) h = absurd (cc h)
link_not_blob uuid _ h = refl

module _ {ℓ} {V : Type ℓ} where
  -- The numbers on each lane, newest first.
  abbrev pub cold_numbers : List (Packet V) → List ℕ
  cold_numbers [] = []
  cold_numbers (cold n m ∷ w) = n ∷ cold_numbers w
  cold_numbers (fast n m ∷ w) = cold_numbers w

  abbrev pub fast_numbers : List (Packet V) → List ℕ
  fast_numbers [] = []
  fast_numbers (cold n m ∷ w) = fast_numbers w
  fast_numbers (fast n m ∷ w) = n ∷ fast_numbers w

  -- The cold messages of a kind have numbers up to `top`.
  abbrev pub Within : (Cold → Bool) → ℕ → List (Packet V) → Type 0
  Within p top [] = Unit
  Within p top (cold n m ∷ w) = (p m ≡ true → n ≤ top) × Within p top w
  Within p top (fast n m ∷ w) = Within p top w

  -- The newest chunk of a bootstrap is the last of its file.
  abbrev pub complete : List (Packet V) → Bool
  complete [] = false
  complete (cold n (chunk c) ∷ w) = if is_boot_meta c.0.meta then is_final c else complete w
  complete (cold n m ∷ w) = complete w
  complete (fast n m ∷ w) = complete w

  -- A message that names `uuid` and `after`, sent behind `w`, waits for every chunk of a blob of
  -- `uuid`, every library message, and a bootstrap that is through.
  abbrev pub Waits : Option (String × ℕ) → List (Packet V) → Type 0
  Waits none w = Unit
  Waits (some (uuid, after)) w =
      Within (is_blob uuid) after w
      × Within is_link after w
      × (complete w ≡ true → Within is_boot after w)

  abbrev pub Ordered : List (Packet V) → Type 0
  Ordered [] = Unit
  Ordered (cold n m ∷ w) = Ordered w
  Ordered (fast n m ∷ w) = Waits (names m) w × Ordered w

  pub record IsSafe (l : Lanes V) : Type 0 where
    pub numbered : cold_numbers l.wire ≡ countdown l.seq
    pub numbered_fast : fast_numbers l.wire ≡ countdown l.seq_fast
    pub blob_marks :
        (uuid : String) → Within (is_blob uuid) (max (cold_seq_of l uuid) l.boot_last_seq) l.wire
    pub link_mark : Within is_link l.link_seq l.wire
    pub boot_mark : complete l.wire ≡ true → Within is_boot l.boot_last_seq l.wire
    pub ordered : Ordered l.wire

  Within-mono :
      (p : Cold → Bool) (a b : ℕ) (w : List (Packet V)) → a ≤ b → Within p a w → Within p b w
  Within-mono p a b [] le h = tt
  Within-mono p a b (cold n m ∷ w) le h = (λ e. omega (arith, h.0 e), Within-mono p a b w le h.1)
  Within-mono p a b (fast n m ∷ w) le h = Within-mono p a b w le h

  -- Every number sent is at most the newest.
  Within-countdown :
      (p : Cold → Bool) (w : List (Packet V)) (n : ℕ) → cold_numbers w ≡ countdown n → Within p n w
  Within-countdown p [] n h = tt
  Within-countdown p (fast k m ∷ w) n h = Within-countdown p w n h
  Within-countdown p (cold k m ∷ w) zero h = absurd (cc h)
  Within-countdown p (cold k m ∷ w) (suc n) h =
      let same : k ≡ suc n = cc h in
      let rest : cold_numbers w ≡ countdown n = cc h in
      (
        λ e. omega (arith, same),
        Within-mono p n (suc n) w (omega arith) (Within-countdown p w n rest),
      )

  -- A message of another kind adds nothing to what is within.
  Within-other :
      (p : Cold → Bool) (top n : ℕ) (m : Cold) (w : List (Packet V))
      → p m ≡ false
      → Within p top w
      → Within p top (cold n m ∷ w)
  Within-other p top n m w other h = (λ e. absurd (cc (other, e)), h)

  -- Right after a send the newest number bounds everything.
  Within-newest :
      (p : Cold → Bool) (l : Lanes V) (m : Cold)
      → IsSafe l
      → Within p (suc l.seq) (cold (suc l.seq) m ∷ l.wire)
  Within-newest p l m s =
      Within-countdown p (cold (suc l.seq) m ∷ l.wire) (suc l.seq)
        (ap (λ ns. suc l.seq ∷ ns) s.numbered)

  boot_sent-IsSafe :
      (l : Lanes V) (c : Chunk) (rest : List Chunk)
      → IsBoot (c ∷ rest)
      → IsSafe l
      → IsSafe (boot_sent (cold_accepted l (chunk c)) rest)
  unfolding boot_sent cold_seq_of Dict.get
  boot_sent-IsSafe l c [] b s = record {
    numbered = ap (λ ns. suc l.seq ∷ ns) s.numbered;
    numbered_fast = s.numbered_fast;
    blob_marks = λ u.
        Within-mono (is_blob u) (suc l.seq) (max 0 (suc l.seq))
          (cold (suc l.seq) (chunk c) ∷ l.wire) (omega arith)
          (Within-newest (is_blob u) l (chunk c) s);
    link_mark = (λ e. absurd (cc e), s.link_mark);
    boot_mark = λ e. Within-newest is_boot l (chunk c) s;
    ordered = s.ordered;
  }
  boot_sent-IsSafe l c (d ∷ rest) b s = record {
    numbered = ap (λ ns. suc l.seq ∷ ns) s.numbered;
    numbered_fast = s.numbered_fast;
    blob_marks = λ u.
        Within-other (is_blob u) _ (suc l.seq) (chunk c) l.wire (boot_not_block u c.0.meta b.0)
          (s.blob_marks u);
    link_mark = (λ e. absurd (cc e), s.link_mark);
    boot_mark = λ e. absurd (ground (arith, b.0, b.1));
    ordered = s.ordered;
  }

  cold_seq_of-chunk_sent :
      (l : Lanes V) (uuid : String) (rest : List Chunk) (u : String)
      → cold_seq_of (chunk_sent l uuid rest) u ≡ (if uuid == u then l.seq else cold_seq_of l u)
  unfolding chunk_sent cold_seq_of
  cold_seq_of-chunk_sent l uuid rest u = ground (arith, get-put l.uuid_cold_seq uuid l.seq u)

  blob_chunk-IsSafe :
      (l : Lanes V) (uuid : String) (c : Chunk) (rest : List Chunk)
      → is_block_meta uuid c.0.meta ≡ true
      → IsSafe l
      → IsSafe (chunk_sent (cold_accepted l (chunk c)) uuid rest)
  unfolding chunk_sent cold_seq_of
  blob_chunk-IsSafe l uuid c rest b s = record {
    numbered = ap (λ ns. suc l.seq ∷ ns) s.numbered;
    numbered_fast = s.numbered_fast;
    blob_marks = λ u. elim (Bool-cases (uuid == u)) [
      | inl same ↦
          Within-mono (is_blob u) (suc l.seq) _ (cold (suc l.seq) (chunk c) ∷ l.wire)
            (omega
              (arith, rw same at (cold_seq_of-chunk_sent (cold_accepted l (chunk c)) uuid rest u)))
            (Within-newest (is_blob u) l (chunk c) s)
      | inr other ↦
          Within-other (is_blob u) _ (suc l.seq) (chunk c) l.wire
            (ground (arith, one_block uuid u c.0.meta b, eq_iff uuid u))
            (Within-mono (is_blob u) _ _ l.wire
              (omega (
                arith,
                rw other at (cold_seq_of-chunk_sent (cold_accepted l (chunk c)) uuid rest u),
              ))
              (s.blob_marks u))
    ];
    link_mark = (λ e. absurd (cc e), s.link_mark);
    boot_mark = λ e.
        Within-other is_boot _ (suc l.seq) (chunk c) l.wire (block_not_boot uuid c.0.meta b)
          (s.boot_mark (rw (block_not_boot uuid c.0.meta b) at e));
    ordered = s.ordered;
  }

  -- A cold message that is no chunk of a bootstrap or of a datablock's blob.
  other-IsSafe :
      (l : Lanes V) (m : Cold) (libs : List Chunk) (top : ℕ)
      → is_boot m ≡ false
      → ((u : String) → is_blob u m ≡ false)
      → Within is_link top (cold (suc l.seq) m ∷ l.wire)
      → IsSafe l
      → IsSafe (record (cold_accepted l m) { lib_outbox = libs; link_seq = top })
  unfolding cold_seq_of
  other-IsSafe l m libs top b k t s = record {
    numbered = ap (λ ns. suc l.seq ∷ ns) s.numbered;
    numbered_fast = s.numbered_fast;
    blob_marks = λ u. Within-other (is_blob u) _ (suc l.seq) m l.wire (k u) (s.blob_marks u);
    link_mark = t;
    boot_mark =
        λ e. Within-other is_boot _ (suc l.seq) m l.wire b (s.boot_mark (complete-other m b e));
    ordered = s.ordered;
  }
    where
      complete-other :
          (x : Cold)
          → is_boot x ≡ false
          → complete (cold (suc l.seq) x ∷ l.wire) ≡ true
          → complete l.wire ≡ true
      complete-other (chunk c) n e = rw n at e
      complete-other (link path objects collections) n e = e
      complete-other (unlink path) n e = e
      complete-other (lib_missing path why) n e = e
      complete-other resync_end n e = e

  -- Behind a message that names a number at or above its datablock's, everything waits in order.
  after_for-Waits :
      (l : Lanes V) (uuid : String) (after : ℕ)
      → after_for l uuid ≤ after
      → IsSafe l
      → Waits (some (uuid, after)) l.wire
  unfolding after_for
  after_for-Waits l uuid after le s = (
    Within-mono (is_blob uuid) _ after l.wire (omega arith) (s.blob_marks uuid),
    Within-mono is_link _ after l.wire (omega arith) s.link_mark,
    λ e. Within-mono is_boot _ after l.wire (omega arith) (s.boot_mark e),
  )

  IsSafe-step : (l m : Lanes V) → Step l m → Owned l → IsSafe l → IsSafe m
  unfolding blob_shipped queue_blob cold_seq_of
  IsSafe-step l _ refusal o s = record {
    numbered = s.numbered;
    numbered_fast = s.numbered_fast;
    blob_marks = s.blob_marks;
    link_mark = s.link_mark;
    boot_mark = s.boot_mark;
    ordered = s.ordered;
  }
  IsSafe-step l _ (boot_chunk c rest h) o s = boot_sent-IsSafe l c rest (rw h at o.boots) s
  IsSafe-step l _ (lib_chunk c rest h) o s =
      let is_lib : is_lib_meta c.0.meta ≡ true = (rw h at o.libs).0 in
      other-IsSafe l (chunk c) rest l.link_seq (lib_not_boot c.0.meta is_lib)
        (λ u. lib_not_block u c.0.meta is_lib) (λ e. absurd (cc e), s.link_mark) s
  IsSafe-step l _ (blob_chunk uuid c rest h) o s =
      blob_chunk-IsSafe l uuid c rest (o.blobs uuid (c ∷ rest) h).0 s
  IsSafe-step l _ (blob_done uuid) o s = record {
    numbered = s.numbered;
    numbered_fast = s.numbered_fast;
    blob_marks = s.blob_marks;
    link_mark = s.link_mark;
    boot_mark = s.boot_mark;
    ordered = s.ordered;
  }
  IsSafe-step l _ (link_msg m h) o s =
      other-IsSafe l m l.lib_outbox (suc l.seq) (link_not_boot m h) (λ u. link_not_blob u m h)
        (Within-newest is_link l m s) s
  IsSafe-step l _ cold_end_msg o s =
      other-IsSafe l resync_end l.lib_outbox l.link_seq refl (λ u. refl)
        (λ e. absurd (cc e), s.link_mark) s
  IsSafe-step l _ fast_end_msg o s = record {
    numbered = s.numbered;
    numbered_fast = ap (λ ns. suc l.seq_fast ∷ ns) s.numbered_fast;
    blob_marks = s.blob_marks;
    link_mark = s.link_mark;
    boot_mark = s.boot_mark;
    ordered = (tt, s.ordered);
  }
  IsSafe-step l _ (named_msg uuid kind after m h named le) o s = record {
    numbered = s.numbered;
    numbered_fast = ap (λ ns. suc l.seq_fast ∷ ns) s.numbered_fast;
    blob_marks = s.blob_marks;
    link_mark = s.link_mark;
    boot_mark = s.boot_mark;
    ordered = (rw h (after_for-Waits l uuid after le s), s.ordered);
  }
  IsSafe-step l _ (boot_queued chunks shipped h) o s = record {
    numbered = s.numbered;
    numbered_fast = s.numbered_fast;
    blob_marks = s.blob_marks;
    link_mark = s.link_mark;
    boot_mark = s.boot_mark;
    ordered = s.ordered;
  }
  IsSafe-step l _ (lib_queued chunks h) o s = record {
    numbered = s.numbered;
    numbered_fast = s.numbered_fast;
    blob_marks = s.blob_marks;
    link_mark = s.link_mark;
    boot_mark = s.boot_mark;
    ordered = s.ordered;
  }
  IsSafe-step l _ (blob_queued uuid chunks h) o s = record {
    numbered = s.numbered;
    numbered_fast = s.numbered_fast;
    blob_marks = s.blob_marks;
    link_mark = s.link_mark;
    boot_mark = s.boot_mark;
    ordered = s.ordered;
  }

  init-Owned : (capacity : ℕ) (answers : List Bool) → Owned {V = V} (Lanes.init capacity answers)
  unfolding Dict.get
  init-Owned capacity answers = record {
    boots = tt;
    libs = tt;
    blobs = λ u chunks e. absurd (cc e);
  }

  init-IsSafe : (capacity : ℕ) (answers : List Bool) → IsSafe (Lanes.init capacity answers)
  init-IsSafe capacity answers = record {
    numbered = refl;
    numbered_fast = refl;
    blob_marks = λ u. tt;
    link_mark = tt;
    boot_mark = λ e. tt;
    ordered = tt;
  }

  pub Steps-Owned : (l m : Lanes V) → Steps l m → Owned l → Owned m
  Steps-Owned l _ stay o = o
  Steps-Owned l _ (onward k n t u) o = Owned-step k n u (Steps-Owned l k t o)

  pub Steps-IsSafe : (l m : Lanes V) → Steps l m → Owned l → IsSafe l → IsSafe m
  Steps-IsSafe l _ stay o s = s
  Steps-IsSafe l _ (onward k n t u) o s =
      IsSafe-step k n u (Steps-Owned l k t o) (Steps-IsSafe l k t o s)

  -- Every run of the protocol from the start is safe.
  pub run-IsSafe :
      (capacity : ℕ) (answers : List Bool) (l : Lanes V)
      → Steps (Lanes.init capacity answers) l
      → IsSafe l
  run-IsSafe capacity answers l t =
      Steps-IsSafe (Lanes.init capacity answers) l t (init-Owned capacity answers)
        (init-IsSafe capacity answers)
