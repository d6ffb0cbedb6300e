-- ===== src/Tests/Host.antt =====
-- Concrete inputs for qcbridge/ring0/host_handlers.py: a world of two datablocks, a camera that is
-- edited and a collection that is gone.
use qcbridge.Prelude.{
  ℕ, map, ◌≡◌, refl, Bool, true, false, ◌==◌, none, some, List, [], ◌∷◌, string_eq, nat_eq, arith,
}
use qcbridge.Blob.{chunk_blob}
use qcbridge.Dict
use qcbridge.HostSync.{Sample, World, Host, lane_full, written, not_a_file, send_t1}
use qcbridge.HostSync.Boot.{flush_boot}
use qcbridge.HostSync.Reached
use qcbridge.HostSync.Reached.{
  Call, scan_call, depsgraph_call, tick_call, bootstrap_call, window_call, after_all, calls-IsSafe,
}
use qcbridge.HostSync.Refusal.{
  Kept, send_t1_refused, prime_ticks, prime_ticks_end, boot_stream, fast_sent, flush_tick_resumes,
}
use qcbridge.HostSync.Sampled.{uuid_of, Marks, Remembers, sweep_once}
use qcbridge.KeySet.{has, Distinct}
use qcbridge.HostSync.Tick.{sweep_visibility, Update, flush_tick}
use qcbridge.Lanes.{mainfile}
use qcbridge.Lanes.Order.{IsSafe}
use qcbridge.Shadow.{Snapshot}

-- The camera is datablock 1, and its lens is `lens` now.
abbrev camera_snapshot : ℕ → Snapshot ℕ
camera_snapshot lens = ("name", 7) ∷ ("lens", lens) ∷ []

abbrev pub world : ℕ → World ℕ
world lens = record {
  is_scene = λ ref. false;
  is_key = λ ref. false;
  alive = λ ref. ref == 1;
  used = λ ref. true;
  name = λ ref. "Camera";
  collection_of = λ ref. some "cameras";
  snapshot = λ ref. some (camera_snapshot lens);
  serialize = λ ref. written (1 ∷ 2 ∷ 3 ∷ []) (camera_snapshot lens);
  digest = λ ref bytes snapshot. "a1";
  scene_struct_digest = λ snapshot. "s1";
  owner = λ ref. none;
  target = λ collection value. none;
  target_no_key = λ collection value uuid ref h. refl;
  numbered = λ prefix n. prefix;
  mainfile = 9 ∷ [];
  file_name = "shot.blend";
  project_dir = "/p";
  context_scene = some (some "s1");
  libraries = [];
  lib_file = λ path. not_a_file;
  basename = λ path. path;
  request_lane = lane_full;
  sampled = record { uuid = "cam"; vector = "v1"; is_mesh = false } ∷ [];
  resurrected = [];
  is_live = λ uuid. true;
  scanned = ("cam", 1) ∷ ("dead", 2) ∷ [];
  is_typed = λ ref. true;
  object_vector = λ ref. some "v1";
  keeps_state = λ ref. false;
}

abbrev lens_edit : Update
lens_edit = record {
  uuid = "cam";
  ref = 1;
  is_stampable = true;
  is_syncable = true;
  type_key = some "CAMERA";
  is_shading_pinged = false;
  is_updated_shading = false;
  is_updated_geometry = false;
  is_updated_transform = false;
  is_object = false;
  has_bake_nodes = false;
}

-- The file is scanned and sent, the lens edited, and two ticks pass; the transport refuses once.
abbrev pub session_calls : List (Call ℕ)
session_calls =
    scan_call (world 35)
    ∷ bootstrap_call (world 35) 20000
    ∷ tick_call (world 35) 20025 false
    ∷ depsgraph_call 20030 (lens_edit ∷ [])
    ∷ tick_call (world 50) 20200 false
    ∷ tick_call (world 50) 20225 false
    ∷ []

abbrev pub session_answers : List Bool
session_answers = true ∷ true ∷ true ∷ true ∷ []

abbrev pub reached_host : Host ℕ
reached_host = after_all (Reached.init 8 session_answers) session_calls

calls-IsSafe_example : IsSafe reached_host.lanes
calls-IsSafe_example = calls-IsSafe 8 session_answers session_calls

-- A host whose transport takes nothing, with the camera known.
abbrev pub stuck_host : Host ℕ
stuck_host = record (Reached.init 8 []) { uuid_to_db = ("cam", 1) ∷ [] }

abbrev lens_change : Snapshot ℕ
lens_change = ("lens", 50) ∷ []

stuck_refuses :
    (send_t1 (world 50) 20200 stuck_host "cam" 1 lens_change (some (camera_snapshot 35)) false).1
    ≡ false
unfolding send_t1
stuck_refuses = refl

send_t1_refused_example :
    let after =
      (send_t1
        (world 50)
        20200
        stuck_host
        "cam"
        1
        lens_change
        (some (camera_snapshot 35))
        false).0 in
    Kept "cam" (some (camera_snapshot 35)) after × (after.debounce ≡ stuck_host.debounce)
send_t1_refused_example =
    send_t1_refused (world 50) 20200 stuck_host "cam" 1 lens_change (some (camera_snapshot 35))
      false stuck_refuses

abbrev idle_host : Host ℕ
idle_host = record stuck_host { prime_queue = "cam" ∷ "dead" ∷ "gone" ∷ [] }

prime_ticks_end_example :
    (prime_ticks (world 35 ∷ world 35 ∷ world 50 ∷ []) idle_host).prime_queue ≡ []
prime_ticks_end_example =
    prime_ticks_end (world 35 ∷ world 35 ∷ world 50 ∷ []) idle_host (omega arith)

-- Two chunks of a bootstrap wait, and the transport takes the first alone.
abbrev booting_host : Host ℕ
booting_host = record stuck_host {
  lanes = record stuck_host.lanes {
    boot_outbox = chunk_blob "boot" "boot.0.1" (9 ∷ 8 ∷ []) (mainfile "shot.blend" "/p" "s1") 1;
    answers = true ∷ false ∷ [];
  };
}

booting_stops : (flush_boot booting_host).1 ≡ false
unfolding flush_boot chunk_blob
booting_stops = refl

flush_tick_resumes_example :
    (boot_stream (flush_tick (world 35) 20025 false booting_host).lanes
      ≡ boot_stream booting_host.lanes)
    × (fast_sent (flush_tick (world 35) 20025 false booting_host).lanes.wire
        ≡ fast_sent booting_host.lanes.wire)
    × ((flush_tick (world 35) 20025 false booting_host).dirty ≡ booting_host.dirty)
flush_tick_resumes_example = flush_tick_resumes (world 35) 20025 false booting_host booting_stops

-- The camera and a mesh, whose vector changed since the host remembered it.
abbrev samples : List Sample
samples =
    record { uuid = "cam"; vector = "v1"; is_mesh = false }
    ∷ record { uuid = "mesh"; vector = "v2"; is_mesh = true }
    ∷ []

abbrev sampling_host : Host ℕ
sampling_host = record stuck_host { vis_state = ("mesh", "v0") ∷ [] }

sampled_apart : Distinct (map uuid_of samples)
unfolding has
sampled_apart = (refl, (refl, tt))

sweep_once_example :
    let swept = sweep_visibility 20500 sampling_host samples in
    Marks sampling_host swept samples
    × Remembers swept samples
    × (sweep_visibility 20750 swept samples ≡ swept)
sweep_once_example = sweep_once 20500 20750 samples sampling_host sampled_apart
