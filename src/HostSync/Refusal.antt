-- ===== src/HostSync/Refusal.antt =====
-- What a refusal of the transport leaves: what is owed, and where the sending goes on.
use Prim.Native.Nat.{max}
use mathlib.Core.List.{append_assoc, append-nil}
use qcbridge.Prelude.{
  ℕ, zero, suc, ◌+◌, ◌≤◌, ◌-◌, ◌≡◌, refl, ◌∙◌, sym, ap, Eq, Bool, true, false, Option, none, some,
  List, [], ◌∷◌, ◌++◌, String, string_eq, arith, is_some, length, Bool-cases, Option-cases, inl,
  inr,
}
use qcbridge.Dict
use qcbridge.Dict.{get-put, get-put_self}
use qcbridge.DirtySet.{DirtySet, Entry, Tier, t1, ratchet, mark, requeue, is_tombstone}
use qcbridge.HostSync.{
  World, Host, setters_first, pointed, know, put_back, ship_first, ship_pointers, send_named,
  send_t1, scene_entry,
}
use qcbridge.HostSync.Boot.{flush_boot, prime_one, prime_hashes}
use qcbridge.HostSync.Waiting.{debounce-send_t1}
use qcbridge.HostSync.Targets.{if-lem, option-lem, list-lem}
use qcbridge.HostSync.Tick.{flush_tick, t2_per_tick}
use qcbridge.Lanes.{
  Lanes, Chunk, Cold, Fast, chunk, Packet, cold, fast, answer, cold_accepted, try_cold, boot_sent,
  drain_boot, after_for, cold_seq_of, send_logged,
}
use qcbridge.Lanes.Step.{outbox-boot_sent}
use qcbridge.Shadow
use qcbridge.Shadow.{Snapshot, restore}

tombstone_there : (o : Option Entry) → is_tombstone o ≡ true → is_some o ≡ true
unfolding is_tombstone
tombstone_there none h = absurd (cc h)
tombstone_there (some entry) h = refl

mark_owed :
    (d : DirtySet) (uuid : String) (tier : Tier)
    → is_some (Dict.get (mark d uuid tier).entries uuid) ≡ true
unfolding mark is_tombstone
mark_owed d uuid tier = elim (Bool-cases (is_tombstone (Dict.get d.entries uuid))) [
  | inl dead ↦ rw (dead, mark) (tombstone_there (Dict.get d.entries uuid) dead)
  | inr other ↦
      rw (other, mark)
        (ap is_some (get-put_self d.entries uuid (ratchet (Dict.get d.entries uuid) tier)))
]

abbrev pub messages_of : List Chunk → List Cold
messages_of [] = []
messages_of (c ∷ cs) = chunk c ∷ messages_of cs

nil_of_length : (queue : List String) → length queue ≤ 0 → queue ≡ []
nil_of_length [] le = refl
nil_of_length (x ∷ queue) le = absurd (omega arith)

module _ {ℓ} {V : Type ℓ} where
  -- The datablock is owed again, and its shadow is what it was given to be put back.
  pub record Kept (uuid : String) (old : Option (Snapshot V)) (h : Host V) : Type ℓ where
    pub owed : is_some (Dict.get h.dirty.entries uuid) ≡ true
    pub shadow : (s : Snapshot V) → old ≡ some s → Shadow.get h.shadow uuid ≡ some s

  put_back-Kept :
      (h : Host V) (uuid : String) (old : Option (Snapshot V)) → Kept uuid old (put_back h uuid old)
  unfolding put_back requeue restore Shadow.get
  put_back-Kept h uuid none = record {
    owed = mark_owed h.dirty uuid t1;
    shadow = λ s e. absurd (cc e);
  }
  put_back-Kept h uuid (some shadow) = record {
    owed = mark_owed h.dirty uuid t1;
    shadow = λ s e. get-put_self h.shadow uuid shadow ∙ e;
  }

module _ {ℓ} {V : Type ℓ} ⦃e : Eq V⦄ where
  send_named_refused :
      (w : World V) (h : Host V) (uuid : String) (ref : ℕ) (changes : Snapshot V)
      (old : Option (Snapshot V)) (full : Bool) (after : ℕ)
      → (send_named w h uuid ref changes old full after).1 ≡ false
      → Kept uuid old (send_named w h uuid ref changes old full after).0
  unfolding send_named
  send_named_refused w h uuid ref changes old full after =
      let P : Host V × Bool → Type ℓ = λ r. r.1 ≡ false → Kept uuid old r.0 in
      let (lanes, sent) =
        send_logged h.lanes uuid "t1" (Fast.t1 uuid after full (scene_entry w h ref) changes) in
      if-lem P sent (record h { lanes = lanes; sent_t1 = h.sent_t1 + length changes }, true) _
        (λ e. absurd (cc e)) (λ e. put_back-Kept (record h { lanes = lanes }) uuid old)

  ship_pointers_refused :
      (w : World V) (now : ℕ) (uuid : String) (old : Option (Snapshot V)) (changes : Snapshot V)
      (after : ℕ) (h : Host V)
      → (ship_pointers w now uuid old changes after h).1 ≡ none
      → Kept uuid old (ship_pointers w now uuid old changes after h).0
  unfolding ship_pointers
  ship_pointers_refused w now uuid old [] after h = λ e. absurd (cc e)
  ship_pointers_refused w now uuid old ((path, value) ∷ changes) after h =
      let P : Host V × Option ℕ → Type ℓ = λ r. r.1 ≡ none → Kept uuid old r.0 in
      option-lem P (pointed w path value) _ _ (ship_pointers_refused w now uuid old changes after h)
        (λ t.
          let h' = ship_first w now (know h t.0 t.1) t.0 in
          if-lem P (is_some (Dict.get h'.lanes.t2_outbox t.0)) (put_back h' uuid old, none) _
            (λ e. put_back-Kept h' uuid old)
            (ship_pointers_refused w now uuid old changes (max after (cold_seq_of h'.lanes t.0))
              h'))

  send_t1-Kept :
      (w : World V) (now : ℕ) (h : Host V) (uuid : String) (ref : ℕ) (changes : Snapshot V)
      (old : Option (Snapshot V)) (full : Bool)
      → (send_t1 w now h uuid ref changes old full).1 ≡ false
      → Kept uuid old (send_t1 w now h uuid ref changes old full).0
  unfolding send_t1
  send_t1-Kept w now h uuid ref [] old full = λ e. absurd (cc e)
  send_t1-Kept w now h uuid ref (c ∷ cs) old full =
      let changes = setters_first (c ∷ cs) in
      let r = ship_pointers w now uuid old changes (after_for h.lanes uuid) h in
      elim (Option-cases r.1) [
        | inl waits ↦
            rw (waits, send_t1)
              (λ e. ship_pointers_refused w now uuid old changes (after_for h.lanes uuid) h waits)
        | inr (a, ok) ↦ rw (ok, send_t1) (send_named_refused w r.0 uuid ref changes old full a)
      ]

  -- When `_send_t1` does not get a delta out, because the transport refuses it or a datablock that
  -- it points to is still leaving, the dirty set has an entry for the datablock again; and if the
  -- caller passed the shadow from before the difference, that is its shadow again (with none passed,
  -- the shadow is not put back). The debouncer is as it was: the datablock is not marked ready again.
  pub send_t1_refused :
      (w : World V) (now : ℕ) (h : Host V) (uuid : String) (ref : ℕ) (changes : Snapshot V)
      (old : Option (Snapshot V)) (full : Bool)
      → (send_t1 w now h uuid ref changes old full).1 ≡ false
      → let after = (send_t1 w now h uuid ref changes old full).0 in
        Kept uuid old after × (after.debounce ≡ h.debounce)
  send_t1_refused w now h uuid ref changes old full refused = (
    send_t1-Kept w now h uuid ref changes old full refused,
    debounce-send_t1 w now h uuid ref changes old full,
  )

module _ {ℓ} {V : Type ℓ} where
  -- The messages of any kind that have left on a lane, oldest first.
  abbrev pub cold_sent : List (Packet V) → List Cold
  cold_sent [] = []
  cold_sent (cold n m ∷ w) = cold_sent w ++ m ∷ []
  cold_sent (fast n m ∷ w) = cold_sent w

  abbrev pub fast_sent : List (Packet V) → List (Fast V)
  fast_sent [] = []
  fast_sent (cold n m ∷ w) = fast_sent w
  fast_sent (fast n m ∷ w) = fast_sent w ++ m ∷ []

  -- What has left on the cold lane, and then what waits of the bootstrap.
  abbrev pub boot_stream : Lanes V → List Cold
  boot_stream l = cold_sent l.wire ++ messages_of l.boot_outbox

  boot_stream-sent :
      (l : Lanes V) (c : Chunk) (rest : List Chunk)
      → boot_stream (boot_sent (cold_accepted l (chunk c)) rest)
        ≡ cold_sent l.wire ++ chunk c ∷ messages_of rest
  unfolding boot_sent
  boot_stream-sent l c [] = rw append-nil refl
  boot_stream-sent l c (d ∷ rest) =
      append_assoc (cold_sent l.wire) (chunk c ∷ []) (messages_of (d ∷ rest))

  boot_stream-drain :
      (chunks : List Chunk) (l : Lanes V)
      → l.boot_outbox ≡ chunks
      → boot_stream (drain_boot chunks l).0 ≡ boot_stream l
  unfolding drain_boot
  boot_stream-drain [] l h = refl
  boot_stream-drain (c ∷ rest) l h = elim (Bool-cases (answer l.answers).1) [
    | inl ok ↦
        rw (drain_boot, try_cold, ok)
          (boot_stream-drain rest (boot_sent (cold_accepted l (chunk c)) rest)
              (outbox-boot_sent (cold_accepted l (chunk c)) rest)
            ∙ boot_stream-sent l c rest
            ∙ ap (λ (z : List Chunk). cold_sent l.wire ++ messages_of z) (sym h))
    | inr busy ↦ rw (drain_boot, try_cold, busy) refl
  ]

  wire-boot_sent :
      (l : Lanes V) (rest : List Chunk) → fast_sent (boot_sent l rest).wire ≡ fast_sent l.wire
  unfolding boot_sent
  wire-boot_sent l [] = refl
  wire-boot_sent l (c ∷ rest) = refl

  fast_lane-drain :
      (chunks : List Chunk) (l : Lanes V)
      → fast_sent (drain_boot chunks l).0.wire ≡ fast_sent l.wire
  unfolding drain_boot
  fast_lane-drain [] l = refl
  fast_lane-drain (c ∷ rest) l = elim (Bool-cases (answer l.answers).1) [
    | inl ok ↦
        rw (drain_boot, try_cold, ok)
          (fast_lane-drain rest (boot_sent (cold_accepted l (chunk c)) rest)
            ∙ wire-boot_sent (cold_accepted l (chunk c)) rest)
    | inr busy ↦ rw (drain_boot, try_cold, busy) refl
  ]

  flush_boot_only :
      (h : Host V)
      → (fast_sent (flush_boot h).0.lanes.wire ≡ fast_sent h.lanes.wire)
        × ((flush_boot h).0.dirty ≡ h.dirty)
  unfolding flush_boot
  flush_boot_only h =
      let P : Host V × Bool → Type ℓ =
        λ r. (fast_sent r.0.lanes.wire ≡ fast_sent h.lanes.wire) × (r.0.dirty ≡ h.dirty) in
      let s = fast_lane-drain h.lanes.boot_outbox h.lanes in
      list-lem P h.lanes.boot_outbox _ _ (refl, refl)
        (λ c cs. if-lem P (drain_boot h.lanes.boot_outbox h.lanes).1 _ _ (s, refl) (s, refl))

  flush_boot_stream : (h : Host V) → boot_stream (flush_boot h).0.lanes ≡ boot_stream h.lanes
  unfolding flush_boot
  flush_boot_stream h =
      let P : Host V × Bool → Type 0 = λ r. boot_stream r.0.lanes ≡ boot_stream h.lanes in
      let s = boot_stream-drain h.lanes.boot_outbox h.lanes refl in
      list-lem P h.lanes.boot_outbox _ _ refl
        (λ c cs. if-lem P (drain_boot h.lanes.boot_outbox h.lanes).1 _ _ s s)

  -- As many ticks' worth of idle hashing as there are worlds.
  unfoldable pub prime_ticks : List (World V) → Host V → Host V
  unfolding prime_hashes
  prime_ticks [] h = h
  prime_ticks (w ∷ ws) h = prime_ticks ws (prime_hashes w t2_per_tick h.prime_queue h)

  prime_hashes_le :
      (w : World V) (n : ℕ) (queue : List String) (h : Host V)
      → length (prime_hashes w n queue h).prime_queue ≤ length queue
  unfolding prime_hashes
  prime_hashes_le w zero queue h = omega arith
  prime_hashes_le w (suc n) [] h = omega arith
  prime_hashes_le w (suc n) (uuid ∷ queue) h =
      if-lem (λ (x : Host V). length x.prime_queue ≤ suc (length queue)) (prime_one w h uuid).1 _ _
        (omega (arith, prime_hashes_le w n queue (prime_one w h uuid).0))
        (omega (arith, prime_hashes_le w (suc n) queue (prime_one w h uuid).0))

  prime_hashes_lt :
      (w : World V) (n : ℕ) (queue : List String) (h : Host V)
      → length (prime_hashes w (suc n) queue h).prime_queue ≤ length queue - 1
  unfolding prime_hashes
  prime_hashes_lt w n [] h = omega arith
  prime_hashes_lt w n (uuid ∷ queue) h =
      if-lem (λ (x : Host V). length x.prime_queue ≤ suc (length queue) - 1) (prime_one w h uuid).1
        _ _ (omega (arith, prime_hashes_le w n queue (prime_one w h uuid).0))
        (omega (arith, prime_hashes_le w (suc n) queue (prime_one w h uuid).0))

  -- The idle hashing ends: as many idle ticks as the queue of datablocks is long empty it,
  -- whatever the datablocks have become at each of them.
  pub prime_ticks_end :
      (ws : List (World V)) (h : Host V)
      → length h.prime_queue ≤ length ws
      → (prime_ticks ws h).prime_queue ≡ []
  unfolding prime_ticks
  prime_ticks_end [] h le = nil_of_length h.prime_queue le
  prime_ticks_end (w ∷ ws) h le =
      prime_ticks_end ws (prime_hashes w t2_per_tick h.prime_queue h)
        (omega (arith, prime_hashes_lt w 1 h.prime_queue h))

module _ {ℓ} {V : Type ℓ} ⦃e : Eq V⦄ where
  flush_tick_booting :
      (w : World V) (now : ℕ) (paused : Bool) (h : Host V)
      → (flush_boot h).1 ≡ false
      → flush_tick w now paused h ≡ (flush_boot h).0
  unfolding flush_tick
  flush_tick_booting w now paused h busy = rw (busy, flush_tick) refl

  -- In a tick in which the transport refuses a chunk of the bootstrap, the messages that have left on
  -- the cold lane, followed by the chunks of the bootstrap that wait, stay the same list: what it
  -- sends there are chunks from the front of those that waited, and the next tick goes on at the
  -- chunk that was refused. Nothing leaves on the fast lane, and the dirty set is as it was.
  pub flush_tick_resumes :
      (w : World V) (now : ℕ) (paused : Bool) (h : Host V)
      → (flush_boot h).1 ≡ false
      → let after = flush_tick w now paused h in
        (boot_stream after.lanes ≡ boot_stream h.lanes)
        × (fast_sent after.lanes.wire ≡ fast_sent h.lanes.wire)
        × (after.dirty ≡ h.dirty)
  flush_tick_resumes w now paused h busy =
      rw (flush_tick_booting w now paused h busy)
        (flush_boot_stream h, (flush_boot_only h).0, (flush_boot_only h).1)
