-- ===== src/HostSync/Boot.antt =====
-- `HostSync` of qcbridge/ring0/host_handlers.py: bootstraps, library messages and the idle hashing.
use qcbridge.Prelude.{
  ℕ, zero, suc, ◌+◌, Bool, true, false, not, ◌&&◌, ◌||◌, Option, none, some, List, [], ◌∷◌, ◌++◌,
  String, string_eq, ◌==◌, if◌then◌else◌, is_some, select,
}
use qcbridge.Dict
use qcbridge.Dict.{keys}
use qcbridge.KeySet.{to_set}
use qcbridge.Blob
use qcbridge.HostSync.{
  World, Host, LibState, LibFile, not_a_file, too_big, contents, written, default_chunk_size,
}
use qcbridge.Resync.{nonempty}
use qcbridge.Lanes.{
  Chunk, link, unlink, lib_missing, mainfile, libfile, send_cold_msg, drain_boot, drain_lib,
}

-- `uuid for uuid, db in self._uuid_to_db.items()` where the datablock is alive and in use
abbrev pub in_use {ℓ} : {V : Type ℓ} → World V → String × ℕ → Bool
in_use w (uuid, ref) = w.alive ref && w.used ref

-- A datablock whose hash is to be primed.
abbrev pub is_primed {ℓ} : {V : Type ℓ} → World V → String × ℕ → Bool
is_primed w (uuid, ref) =
    w.alive ref
    && w.used ref
    && not (w.is_scene ref || w.is_key ref)
    && is_some (w.collection_of ref)

abbrev pub reversed : List String → List String
reversed [] = []
reversed (x ∷ xs) = reversed xs ++ x ∷ []

unfoldable pub same_names : List String → List String → Bool
same_names [] [] = true
same_names (a ∷ xs) (b ∷ ys) = a == b && same_names xs ys
same_names _ _ = false

-- `self._lib_state.get(path) == (objects, colls)`
unfoldable pub same_state : Option LibState → LibState → Bool
unfolding same_names
same_state none state = false
same_state (some (objects, colls)) (objects', colls') =
    same_names objects objects' && same_names colls colls'

-- `if objects or colls`
abbrev pub uses_any : String × LibState → Bool
uses_any (path, (objects, colls)) = nonempty objects || nonempty colls

-- `_LIB` answers: `why` of a "lib_missing".
abbrev pub why_missing : LibFile → String
why_missing not_a_file = "not on the host"
why_missing too_big = "too big"
why_missing _ = "unreadable"

module _ {ℓ} {V : Type ℓ} where
  -- `scene_digest_now`, with the host it leaves.
  unfoldable pub scene_digest_now : World V → Host V → Host V × String
  scene_digest_now w h = elim w.context_scene [
    | none ↦ (h, "")
    | some none ↦ (h, h.scene_digest)
    | some (some digest) ↦ (record h { scene_digest = digest }, digest)
  ]

  -- The chunks of a bootstrap.
  unfoldable pub boot_chunks : World V → Host V → String → List Chunk
  boot_chunks w h digest =
      Blob.chunk_blob "boot" (w.numbered (w.numbered "boot" h.sent_boot) (suc h.lanes.seq))
        w.mainfile (mainfile w.file_name w.project_dir digest) default_chunk_size

  unfoldable pub send_bootstrap : World V → ℕ → Host V → Host V
  unfolding scene_digest_now boot_chunks to_set
  send_bootstrap w now h =
      let (h', digest) = scene_digest_now w h in
      record h' {
        boot_queued_at = now;
        boot_gen = some h.sent_boot;
        manifest_pending = [];
        manifest = none;
        delta_queue = [];
        delta_tail = [];
        delta_end_pending = false;
        lanes = record h'.lanes {
          boot_outbox = boot_chunks w h' digest;
          shipped = to_set (keys (select (in_use w) h'.uuid_to_db));
        };
        blob_hash = [];
        lib_state = w.libraries;
        prime_queue = reversed (keys (select (is_primed w) h'.uuid_to_db));
        sent_boot = h'.sent_boot + 1;
        suppress_marks = false;
      }

  -- The first loop of `_flush_tick_inner`; `t2_unsupported` is reset as the last chunk leaves.
  unfoldable pub flush_boot : Host V → Host V × Bool
  unfolding drain_boot
  flush_boot h =
      let (lanes, through) = drain_boot h.lanes.boot_outbox h.lanes in
      elim h.lanes.boot_outbox [
        | [] ↦ (h, true)
        | c ∷ cs ↦
            if through
            then (record h { lanes = lanes; t2_unsupported = 0 }, true)
            else (record h { lanes = lanes }, false)
      ]

  -- The second loop.
  unfoldable pub flush_libs : Host V → Host V × Bool
  unfolding drain_lib
  flush_libs h =
      let (lanes, through) = drain_lib h.lanes.lib_outbox h.lanes in
      (record h { lanes = lanes }, through)

  -- The first loop of `_sweep_libraries`.
  unfoldable pub sweep_used : Host V → List (String × LibState) → Host V
  unfolding same_state send_cold_msg Dict.get Dict.put
  sweep_used h [] = h
  sweep_used h ((path, state) ∷ current) =
      let (lanes, sent) = send_cold_msg h.lanes (link path state.0 state.1) in
      let stays = sweep_used h current in
      let refused = sweep_used (record h { lanes = lanes }) current in
      let linked =
        sweep_used
          (record h {
            lanes = lanes;
            lib_state = Dict.put h.lib_state path state;
            links_sent = h.links_sent + 1;
          })
          current in
      if same_state (Dict.get h.lib_state path) state
      then stays
      else if sent
      then linked
      else refused

  -- The second loop, over a copy of the keys.
  unfoldable pub sweep_gone : List (String × LibState) → Host V → List String → Host V
  unfolding send_cold_msg Dict.remove Dict.get
  sweep_gone current h [] = h
  sweep_gone current h (path ∷ paths) =
      let (lanes, sent) = send_cold_msg h.lanes (unlink path) in
      let stays = sweep_gone current h paths in
      let refused = sweep_gone current (record h { lanes = lanes }) paths in
      let unlinked =
        sweep_gone current (record h { lanes = lanes; lib_state = Dict.remove h.lib_state path })
          paths in
      if is_some (Dict.get current path) then stays else if sent then unlinked else refused

  unfoldable pub sweep_libraries : World V → Host V → Host V
  unfolding sweep_used sweep_gone
  sweep_libraries w h =
      let current = select uses_any w.libraries in
      let h' = sweep_used h current in sweep_gone current h' (keys h'.lib_state)

  -- The answer "lib_missing" of `serve_lib_requests`.
  unfoldable pub answer_missing : Host V → String → String → Host V
  unfolding send_cold_msg Dict.put
  answer_missing h path why =
      let (lanes, sent) = send_cold_msg h.lanes (lib_missing path why) in
      if sent
      then record h { lanes = lanes; libs_served = Dict.put h.libs_served path "missing" }
      else record h { lanes = lanes }

  -- The queueing of a library's file.
  unfoldable pub ship_library : World V → Host V → String → List ℕ → String → Host V
  unfolding Dict.put
  ship_library w h path bytes sha1 =
      let id = w.numbered (w.numbered "lib" h.libs_shipped) (suc h.lanes.seq) in
      let chunks =
        Blob.chunk_blob "libfile" id bytes (libfile path sha1 (w.basename path))
          default_chunk_size in
      record h {
        lanes = record h.lanes { lib_outbox = h.lanes.lib_outbox ++ chunks };
        libs_served = Dict.put h.libs_served path "shipped";
        libs_shipped = h.libs_shipped + 1;
      }

  unfoldable pub serve_library : World V → Host V → String → Host V
  unfolding answer_missing ship_library Dict.get
  serve_library w h path =
      if path == "" || is_some (Dict.get h.libs_served path) then h else elim (w.lib_file path) [
        | contents bytes sha1 ↦ ship_library w h path bytes sha1
        | other ↦ answer_missing h path (why_missing other)
      ]

  unfoldable pub serve_lib_requests : World V → Host V → List String → Host V
  unfolding serve_library
  serve_lib_requests w h [] = h
  serve_lib_requests w h (path ∷ paths) = serve_lib_requests w (serve_library w h path) paths

  -- One round of `_prime_hashes`: `true` where it counts towards the tick's two.
  unfoldable pub prime_one : World V → Host V → String → Host V × Bool
  unfolding Dict.get Dict.put
  prime_one w h uuid =
      if is_some (Dict.get h.blob_hash uuid)
      then (h, false)
      else elim (Dict.get h.uuid_to_db uuid) [
        | none ↦ (h, false)
        | some ref ↦ if not (w.alive ref) then (h, false) else elim (w.serialize ref) [
          | written bytes snapshot ↦
              let digest = w.digest ref bytes none in
              (
                record h {
                  blob_hash = Dict.put h.blob_hash uuid digest;
                  manifest_pending = Dict.put h.manifest_pending uuid digest;
                  primed = h.primed + 1;
                },
                true,
              )
          | other ↦ (h, false)
        ]
      ]

  -- `n` datablocks are left to this tick.
  unfoldable pub prime_hashes : World V → ℕ → List String → Host V → Host V
  unfolding prime_one
  prime_hashes w zero queue h = record h { prime_queue = queue }
  prime_hashes w (suc n) [] h = record h { prime_queue = [] }
  prime_hashes w (suc n) (uuid ∷ queue) h =
      let (h', counts) = prime_one w h uuid in
      let counted = prime_hashes w n queue h' in
      let passed = prime_hashes w (suc n) queue h' in if counts then counted else passed
