-- ===== src/HostSync.antt =====
-- `HostSync` of qcbridge/ring0/host_handlers.py: what a datablock that is ready becomes on the two
-- lanes of Lanes.antt. What Blender and the host's disk answer at the time of a call is a `World`;
-- a datablock is a number that the world knows. Times are milliseconds of the monotonic clock.
pub mod Boot
pub mod Repair
pub mod Tick
pub mod Targets
pub mod Follows
pub mod Rounds
pub mod Reached
pub mod Unbroken
pub mod Waiting
pub mod Refusal
pub mod Sent
pub mod Sampled
use Prim.Native.Nat.{max}
use text.Mathlib.Text.{starts_with}
use qcbridge.Prelude.{
  ℕ, suc, ◌+◌, ◌≡◌, Eq, Bool, true, false, not, ◌&&◌, ◌||◌, Option, none, some, List, [], ◌∷◌, ◌++◌,
  String, string_eq, ◌==◌, if◌then◌else◌, is_some, select, length,
}
use qcbridge.Dict
use qcbridge.KeySet.{has}
use qcbridge.Blob
use qcbridge.Blob.{Bytes}
use qcbridge.Debouncer
use qcbridge.Debouncer.{Debouncer}
use qcbridge.DirtySet
use qcbridge.DirtySet.{DirtySet, Tier, t1, t2, requeue, requeue_tombstone}
use qcbridge.Lanes
use qcbridge.Lanes.{
  Lanes, Chunk, Meta, datablock, Fast, tomb, send_logged, after_for, cold_seq_of, queue_blob,
  drain_uuid,
}
use qcbridge.Shadow
use qcbridge.Shadow.{Snapshot, Store, diff_and_update, restore}

-- What `tier2_io.serialize` gives: `ReferenceError`, `None`, or the bytes; a datablock that
-- serializes is alive, and its snapshot comes along.
pub data Serialized {ℓ} (V : Type ℓ) : Type ℓ where
  gone unsupported : Serialized V
  written : Bytes → Snapshot V → Serialized V

-- A library file on the host's disk: not a file, of a size beyond the limit, unreadable, or read.
pub data LibFile : Type 0 where
  not_a_file too_big unreadable : LibFile
  contents : Bytes → String → LibFile

-- A datablock that `_sweep_visibility` samples: its uuid, the vector sampled, and whether it is a
-- mesh, which is resent as a blob.
pub record Sample : Type 0 where
  pub uuid : String
  pub vector : String
  pub is_mesh : Bool

-- Whether a batch of digests may be sent: no lane for requests, four unanswered, or neither.
pub data RequestLane : Type 0 where
  no_lane lane_full lane_free : RequestLane

abbrev pub LibState : Type 0
LibState = List String × List String

-- The answers of bpy, of the serializer and of hashing at the time of a call.
pub record World {ℓ} (V : Type ℓ) : Type ℓ where
  pub is_scene : ℕ → Bool
  pub is_key : ℕ → Bool
  pub alive : ℕ → Bool
  -- `db.users > 0 or db.use_fake_user`
  pub used : ℕ → Bool
  pub name : ℕ → String
  -- `tier2_io.collection_of`
  pub collection_of : ℕ → Option String
  -- `build_snapshot`, `none` for a `ReferenceError`
  pub snapshot : ℕ → Option (Snapshot V)
  pub serialize : ℕ → Serialized V
  -- `_blob_digest(db, data, snapshot).hex()`
  pub digest : ℕ → Bytes → Option (Snapshot V) → String
  pub scene_struct_digest : Snapshot V → String
  -- the stampable owner of a shape key, and its uuid
  pub owner : ℕ → Option (String × ℕ)
  -- a stampable datablock of a collection by a name that is not empty, and its uuid
  pub target : String → V → Option (String × ℕ)
  -- such a datablock is a world, an object or a collection, and no shape key
  pub target_no_key :
      (collection : String) (value : V) (uuid : String) (ref : ℕ)
      → target collection value ≡ some (uuid, ref)
      → is_key ref ≡ false
  -- `f"{prefix}.{n}"`
  pub numbered : String → ℕ → String
  -- the file that `bootstrap.serialize_mainfile` gives, its name and its project's directory
  pub mainfile : Bytes
  pub file_name : String
  pub project_dir : String
  -- the digest of the context's scene, `none` if there is no scene or no digest of it
  pub context_scene : Option (Option String)
  -- `bpy.data.libraries` by path, with the used objects and collections of each
  pub libraries : List (String × LibState)
  pub lib_file : String → LibFile
  pub basename : String → String
  pub request_lane : RequestLane
  -- the registered objects, collections, datablocks of the swept types and meshes, in that order
  pub sampled : List Sample
  -- the swept datablocks that carry a uuid and are not in the registry
  pub resurrected : List (String × ℕ)
  -- `registry.session_uid_for(uuid) in live`, once those are adopted
  pub is_live : String → Bool
  -- the stampable datablocks of the file, whether one has a type of tier 1, and the vector that is
  -- sampled of an object
  pub scanned : List (String × ℕ)
  pub is_typed : ℕ → Bool
  pub object_vector : ℕ → Option String
  -- an Object or a Collection
  pub keeps_state : ℕ → Bool

-- The replica's inventory, as it answered.
pub record Manifest : Type 0 where
  pub held : List (String × String)
  pub scene_digest : String
  pub held_digest : Option String

-- The fields of `HostSync`; those of the lanes are in `lanes`, and `prime_queue` is listed from
-- the end that `pop` takes.
pub record Host {ℓ} (V : Type ℓ) : Type ℓ where
  pub lanes : Lanes V
  pub shadow : Store V
  pub dirty : DirtySet
  pub debounce : Debouncer
  pub uuid_to_db : List (String × ℕ)
  pub blob_hash : List (String × String)
  pub prime_queue : List String
  pub scene_digest : String
  pub burst : Bool
  pub auto_boot_at : Option ℕ
  pub last_auto_boot : Option ℕ
  pub boot_queued_at : ℕ
  pub vis_state : List (String × String)
  pub last_sweep : ℕ
  pub suppress_marks : Bool
  pub drop_next_batch : Bool
  pub fast_resend_queue : List (String × String)
  pub fast_resend_end : Bool
  pub manifest_pending : List (String × String)
  pub manifest : Option Manifest
  pub manifest_req_at : Option ℕ
  pub delta_queue : List (String × Option String)
  pub delta_tail : List String
  pub delta_end_pending : Bool
  pub lib_state : List (String × LibState)
  pub libs_served : List (String × String)
  pub libs_shipped : ℕ
  pub links_sent : ℕ
  pub boot_gen : Option ℕ
  pub sent_boot : ℕ
  pub sent_t1 : ℕ
  pub sent_t2 : ℕ
  pub t2_skipped : ℕ
  pub t2_unsupported : ℕ
  pub fast_resyncs : ℕ
  pub delta_resyncs : ℕ
  pub delta_t2 : ℕ
  pub auto_boots : ℕ
  pub sync_errors : ℕ
  pub primed : ℕ

-- `DEBOUNCE_S`, `_AUTO_BOOT_DEBOUNCE` and `protocol.DEFAULT_CHUNK_SIZE`.
abbrev pub debounce_s : ℕ
debounce_s = 80

abbrev pub auto_boot_debounce : ℕ
auto_boot_debounce = 1000

abbrev pub default_chunk_size : ℕ
default_chunk_size = 4194304

-- `_POINTER_SETTERS`
abbrev pub pointer_setters : List (String × String)
pointer_setters =
    ("@scene_world", "worlds")
    ∷ ("@scene_camera", "objects")
    ∷ ("@instance_collection", "collections")
    ∷ ("@dof_focus_object", "objects")
    ∷ ("@ll_receiver", "collections")
    ∷ ("@ll_blocker", "collections")
    ∷ []

module _ {ℓ} {V : Type ℓ} where
  -- `sorted(changes, key=lambda c: not c[0].startswith("@"))`, which is stable.
  unfoldable pub setters_first : Snapshot V → Snapshot V
  setters_first changes =
      select (λ c. starts_with c.0 "@") changes ++ select (λ c. not (starts_with c.0 "@")) changes

  -- The datablock that the change of a pointer names.
  unfoldable pub pointed : World V → String → V → Option (String × ℕ)
  unfolding Dict.get
  pointed w path value = elim (Dict.get pointer_setters path) [
    | none ↦ none
    | some collection ↦ w.target collection value
  ]

  -- `self._uuid_to_db[uuid] = db`
  unfoldable pub know : Host V → String → ℕ → Host V
  unfolding Dict.put
  know h uuid ref = record h { uuid_to_db = Dict.put h.uuid_to_db uuid ref }

  -- The end of `_send_t1` on a refusal.
  unfoldable pub put_back : Host V → String → Option (Snapshot V) → Host V
  unfolding requeue restore
  put_back h uuid old = record h {
    dirty = requeue h.dirty uuid t1;
    shadow = elim old [ none ↦ h.shadow | some shadow ↦ restore h.shadow uuid (some shadow) ];
  }

  unfoldable pub send_tombstone : Host V → String → Host V × Bool
  unfolding send_logged requeue_tombstone
  send_tombstone h uuid =
      let (lanes, sent) = send_logged h.lanes uuid "tomb" (tomb uuid (after_for h.lanes uuid)) in
      if sent
      then (record h { lanes = lanes }, true)
      else (record h { lanes = lanes; dirty = requeue_tombstone h.dirty uuid }, false)

module _ {ℓ} {V : Type ℓ} ⦃e : Eq V⦄ where
  -- The chunks of a datablock's blob, under the next number of the cold lane.
  unfoldable pub blob_chunks : World V → Lanes V → String → ℕ → Bytes → String → Bool → List Chunk
  blob_chunks w l uuid ref bytes digest more =
      Blob.chunk_blob "t2" (w.numbered uuid (suc l.seq)) bytes
        (datablock uuid (w.name ref) (w.collection_of ref) digest more) default_chunk_size

  -- The part of `_flush_t2` from the queueing of the blob on.
  unfoldable pub queue_and_drain : World V → Host V → String → ℕ → Bytes → String → Host V
  unfolding queue_blob drain_uuid blob_chunks Dict.put Dict.remove
  queue_and_drain w h uuid ref bytes digest =
      let chunks = blob_chunks w h.lanes uuid ref bytes digest h.burst in
      record h {
        blob_hash = Dict.put h.blob_hash uuid digest;
        manifest_pending = Dict.remove h.manifest_pending uuid;
        lanes = (drain_uuid (queue_blob h.lanes uuid chunks) uuid).0;
        sent_t2 = h.sent_t2 + 1;
      }

  -- `uuid in self._shipped and self._blob_hash.get(uuid) == digest`
  unfoldable pub already_held : Host V → String → String → Bool
  unfolding has Dict.get
  already_held h uuid digest =
      has h.lanes.shipped uuid
      && elim (Dict.get h.blob_hash uuid) [ none ↦ false | some known ↦ known == digest ]

  -- `_flush_t2` behind the case of a shape key. `true` is the answer `None` of the serializer, and
  -- what follows it there is the caller's.
  unfoldable pub ship : World V → Host V → String → ℕ → Option (Snapshot V) → Host V × Bool
  unfolding diff_and_update already_held queue_and_drain
  ship w h uuid ref snapshot = elim (w.serialize ref) [
    | gone ↦ (h, false)
    | unsupported ↦ (record h { t2_unsupported = h.t2_unsupported + 1 }, true)
    | written bytes now_there ↦
        let seen : Snapshot V = elim snapshot [ none ↦ now_there | some given ↦ given ] in
        let h' = record h { shadow = (diff_and_update h.shadow uuid seen).0 } in
        let digest = w.digest ref bytes (some seen) in
        if already_held h' uuid digest
        then (record h' { t2_skipped = h'.t2_skipped + 1 }, false)
        else (queue_and_drain w h' uuid ref bytes digest, false)
  ]

  -- `self._auto_boot_at = time.monotonic() + _AUTO_BOOT_DEBOUNCE`
  abbrev pub auto_boot_later : Host V → ℕ → Host V
  auto_boot_later h now = record h { auto_boot_at = some (now + auto_boot_debounce) }

  -- `ship` with no fallback.
  unfoldable pub ship_alone : World V → ℕ → Host V → String → Option (Snapshot V) → Host V
  unfolding ship Dict.get
  ship_alone w now h uuid snapshot = elim (Dict.get h.uuid_to_db uuid) [
    | none ↦ h
    | some ref ↦
        let (h', no_tier2) = ship w h uuid ref snapshot in
        if no_tier2 then auto_boot_later h' now else h'
  ]

  -- The case of a shape key with the snapshot there: its owner's blob.
  unfoldable pub flush_owner : World V → ℕ → Host V → String → ℕ → Snapshot V → Host V
  unfolding diff_and_update know ship_alone
  flush_owner w now h uuid ref s =
      let h' = record h { shadow = (diff_and_update h.shadow uuid s).0 } in
      elim (w.owner ref) [
        | none ↦ h'
        | some (owner_uuid, owner) ↦
            let h'' = know h' owner_uuid owner in
            if owner_uuid == uuid then h'' else ship_alone w now h'' owner_uuid none
      ]

  -- The case of a shape key: its owner's blob carries it. Blender has no key that belongs to a key.
  -- Where no snapshot can be built the code raises here, with nothing changed; `raises` tells.
  unfoldable pub flush_key : World V → ℕ → Host V → String → ℕ → Option (Snapshot V) → Host V
  unfolding flush_owner
  flush_key w now h uuid ref snapshot =
      let seen : Option (Snapshot V) = elim snapshot [
        | none ↦ w.snapshot ref
        | some given ↦ some given
      ] in
      elim seen [ none ↦ h | some s ↦ flush_owner w now h uuid ref s ]

  -- `_flush_t2(uuid)` and `_flush_t2(uuid, snapshot)`
  unfoldable pub flush_t2 : World V → ℕ → Host V → String → Option (Snapshot V) → Host V
  unfolding flush_key ship_alone Dict.get
  flush_t2 w now h uuid snapshot = elim (Dict.get h.uuid_to_db uuid) [
    | none ↦ h
    | some ref ↦
        if w.is_key ref
        then flush_key w now h uuid ref snapshot
        else ship_alone w now h uuid snapshot
  ]

  -- Whether `_flush_t2(uuid)` raises: the snapshot of a shape key that is gone.
  unfoldable pub raises : World V → Host V → String → Bool
  unfolding Dict.get
  raises w h uuid = elim (Dict.get h.uuid_to_db uuid) [
    | none ↦ false
    | some ref ↦ w.is_key ref && not (is_some (w.snapshot ref))
  ]

  -- `if t_uuid not in self._shipped: self._flush_t2(t_uuid)`
  unfoldable pub ship_first : World V → ℕ → Host V → String → Host V
  unfolding flush_t2 has
  ship_first w now h uuid = if has h.lanes.shipped uuid then h else flush_t2 w now h uuid none

  -- The loop over the changes in `_send_t1`; `none` is its `return False`.
  unfoldable pub ship_pointers :
      World V → ℕ → String → Option (Snapshot V) → Snapshot V → ℕ → Host V → Host V × Option ℕ
  unfolding pointed know ship_first put_back cold_seq_of Dict.get
  ship_pointers w now uuid old [] after h = (h, some after)
  ship_pointers w now uuid old ((path, value) ∷ changes) after h = elim (pointed w path value) [
    | none ↦ ship_pointers w now uuid old changes after h
    | some (t_uuid, ref) ↦
        let h' = ship_first w now (know h t_uuid ref) t_uuid in
        if is_some (Dict.get h'.lanes.t2_outbox t_uuid)
        then (put_back h' uuid old, none)
        else ship_pointers w now uuid old changes (max after (cold_seq_of h'.lanes t_uuid)) h'
  ]

  -- The entry "sd" of a Scene's delta.
  unfoldable pub scene_entry : World V → Host V → ℕ → Option String
  scene_entry w h ref =
      if w.is_scene ref && not (h.scene_digest == "") then some h.scene_digest else none

  -- The part of `_send_t1` from the number on.
  unfoldable pub send_named :
      World V → Host V → String → ℕ → Snapshot V → Option (Snapshot V) → Bool → ℕ → Host V × Bool
  unfolding scene_entry send_logged put_back
  send_named w h uuid ref changes old full after =
      let (lanes, sent) =
        send_logged h.lanes uuid "t1" (Fast.t1 uuid after full (scene_entry w h ref) changes) in
      if sent
      then (record h { lanes = lanes; sent_t1 = h.sent_t1 + length changes }, true)
      else (put_back (record h { lanes = lanes }) uuid old, false)

  unfoldable pub send_t1 :
      World V → ℕ → Host V → String → ℕ → Snapshot V → Option (Snapshot V) → Bool → Host V × Bool
  unfolding setters_first ship_pointers send_named
  send_t1 w now h uuid ref [] old full = (h, true)
  send_t1 w now h uuid ref (c ∷ cs) old full =
      let changes = setters_first (c ∷ cs) in
      let (h', after) = ship_pointers w now uuid old changes (after_for h.lanes uuid) h in
      elim after [ none ↦ (h', false) | some a ↦ send_named w h' uuid ref changes old full a ]

  -- `_flush_t2(uuid, snapshot, fallback=changes)`
  unfoldable pub flush_structural :
      World V → ℕ → Host V → String → ℕ → Snapshot V → Snapshot V → Host V
  unfolding flush_key ship send_t1
  flush_structural w now h uuid ref snapshot fallback =
      if w.is_key ref
      then flush_key w now h uuid ref (some snapshot)
      else (let (h', no_tier2) = ship w h uuid ref (some snapshot) in
          if no_tier2
          then auto_boot_later (send_t1 w now h' uuid ref fallback none false).0 now
          else h')

  -- What `_flush_t1` does with the snapshot and the difference it makes.
  unfoldable pub flush_snapshot : World V → ℕ → Host V → String → ℕ → Snapshot V → Host V
  unfolding diff_and_update flush_t2 flush_structural send_t1 Shadow.get
  flush_snapshot w now h uuid ref snapshot =
      let old = Shadow.get h.shadow uuid in
      let digest = if w.is_scene ref then w.scene_struct_digest snapshot else h.scene_digest in
      let (shadow, diff) = diff_and_update h.shadow uuid snapshot in
      let h' = record h { scene_digest = digest; shadow = shadow } in
      elim diff [
        | none ↦ if not (w.used ref) then h' else flush_t2 w now h' uuid (some snapshot)
        | some d ↦
            if d.structural
            then flush_structural w now h' uuid ref snapshot d.changes
            else (send_t1 w now h' uuid ref d.changes old false).0
      ]

  unfoldable pub flush_t1 : World V → ℕ → Host V → String → Host V
  unfolding flush_snapshot Dict.get
  flush_t1 w now h uuid = elim (Dict.get h.uuid_to_db uuid) [
    | none ↦ h
    | some ref ↦ elim (w.snapshot ref) [
      | none ↦ h
      | some snapshot ↦ flush_snapshot w now h uuid ref snapshot
    ]
  ]
