-- ===== src/Tests/Replica.antt =====
-- Concrete inputs for qcbridge/ring0/replica_apply.py: a delta whose datablock is missing, a hole on
-- the cold lane, and manifest batches for two bootstraps.
use qcbridge.Prelude.{◌≡◌, refl, false, ◌==◌, none, some, List, [], ◌∷◌, String, string_eq, nat_eq}
use qcbridge.Dict
use qcbridge.HostSync.Unbroken.{oldest_first, calls-no_gap}
use qcbridge.Lanes.Order.{cold_numbers, fast_numbers}
use qcbridge.ReplicaApply
use qcbridge.ReplicaApply.{Replica, Body, Scene, Kind, Batch}
use qcbridge.ReplicaApply.Batches.{Arrived, merge_manifests}
use qcbridge.ReplicaApply.Inventory.{merge_manifests-keeps}
use qcbridge.ReplicaApply.Rounds
use qcbridge.ReplicaApply.Rounds.{
  Round, session_round, manifests_round, batch_round, lanes_round, rounds-IsTold,
}
use qcbridge.ReplicaApply.Told.{IsTold}
use qcbridge.Seq
use qcbridge.Seq.{observe_all}
use qcbridge.Tests.Host.{session_answers, session_calls, reached_host}

abbrev body_of : Kind → String → Body
body_of kind uuid = record {
  kind = kind;
  uuid = uuid;
  sd = none;
  blob = record {
    kind = "t2";
    blob = some (record { id = "cube.1"; i = 0; n = 1; size = 2; o = some 0 });
    meta = record {
      kind = kind;
      uuid = uuid;
      digest = some "a1";
      more = false;
      scene_digest = "";
      gen = none;
    };
  };
  payload = 1 ∷ 2 ∷ [];
}

abbrev scene : Scene
scene = record { resolves = λ uuid. uuid == "lamp"; blob_raises = λ uuid. false }

abbrev arrived : Arrived
arrived = record {
  fast_queue =
      (record { lane = some "f"; seq = some 1; after = some 0 }, body_of ReplicaApply.t1 "cube")
      ∷ (record { lane = some "f"; seq = some 2; after = some 9 }, body_of ReplicaApply.t1 "lamp")
      ∷ [];
  cold_queue =
      (record { lane = none; seq = some 3; after = none }, body_of ReplicaApply.t2 "cube") ∷ [];
}

abbrev rounds : List Round
rounds =
    session_round 0 0 ∷ lanes_round 5 scene arrived ∷ batch_round scene 4 ∷ manifests_round ∷ []

rounds-IsTold_example : IsTold (Rounds.after_all ReplicaApply.init rounds)
rounds-IsTold_example = rounds-IsTold rounds

abbrev holder : Replica
holder = record ReplicaApply.init {
  held = ("cube", "a1") ∷ [];
  boot_gen = some 1;
  manifests =
      record { boot = some 1; held = ("cube", "b2") ∷ ("lamp", "c3") ∷ [] }
      ∷ record { boot = some 2; held = ("cube", "d4") ∷ [] }
      ∷ [];
}

cube_held : Dict.get holder.held "cube" ≡ some "a1"
unfolding Dict.get
cube_held = refl

merge_manifests-keeps_example : Dict.get (merge_manifests holder).held "cube" ≡ some "a1"
merge_manifests-keeps_example = merge_manifests-keeps holder "cube" "a1" cube_held

calls-no_gap_example :
    ((observe_all Seq.init (oldest_first (cold_numbers reached_host.lanes.wire))).gaps ≡ 0)
    × ((observe_all Seq.init (oldest_first (fast_numbers reached_host.lanes.wire))).gaps ≡ 0)
calls-no_gap_example = calls-no_gap 8 session_answers session_calls
