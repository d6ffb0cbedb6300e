-- ===== src/ReplicaApply/Inventory.antt =====
-- The inventory of qcbridge/ring0/replica_apply.py under the host's manifest batches.
use qcbridge.Prelude.{
  ℕ, ◌≡◌, Option, some, List, [], ◌∷◌, ◌++◌, String, string_eq, arith, if◌then◌else◌, ltb, length,
}
use text.Mathlib.TextEquality.{eq_iff}
use qcbridge.Dict
use qcbridge.Dict.{get-put}
use qcbridge.ReplicaApply.{Replica, Batch, manifests_ahead_max}
use qcbridge.ReplicaApply.Batches.{
  merge_held, merge_loop, merge_manifests, fate_of, waits, goes, enters, Fate,
}

merge_held-keeps :
    (entries held : List (String × String)) (uuid digest : String)
    → Dict.get held uuid ≡ some digest
    → Dict.get (merge_held held entries) uuid ≡ some digest
unfolding merge_held
merge_held-keeps [] held uuid digest h = h
merge_held-keeps ((u, d) ∷ entries) held uuid digest h =
    merge_held-keeps entries _ uuid digest (ground (arith, get-put held u d uuid, eq_iff u uuid))

fate-lem :
    (P : List (String × String) × List Batch → Type 0) (f : Fate)
    (x y z : List (String × String) × List Batch)
    → P x
    → P y
    → P z
    → P (elim f [ waits ↦ x | goes ↦ y | enters ↦ z ])
fate-lem P waits x y z p q r = p
fate-lem P goes x y z p q r = q
fate-lem P enters x y z p q r = r

merge_loop-keeps :
    (gen : Option ℕ) (ms : List Batch) (held : List (String × String)) (keep : List Batch)
    (uuid digest : String)
    → Dict.get held uuid ≡ some digest
    → Dict.get (merge_loop gen ms held keep).0 uuid ≡ some digest
unfolding merge_loop
merge_loop-keeps gen [] held keep uuid digest h = h
merge_loop-keeps gen (m ∷ ms) held keep uuid digest h =
    fate-lem (λ x. Dict.get x.0 uuid ≡ some digest) (fate_of gen m.boot) _ _ _
      (merge_loop-keeps gen ms held
        (if ltb (length keep) manifests_ahead_max then keep ++ m ∷ [] else keep) uuid digest h)
      (merge_loop-keeps gen ms held keep uuid digest h)
      (merge_loop-keeps gen ms (merge_held held m.held) keep uuid digest
        (merge_held-keeps m.held held uuid digest h))

-- Merging the host's manifest batches, whatever they hold and whichever bootstrap they are for,
-- changes no entry that the inventory has: what a blob that was applied said of itself stands.
pub merge_manifests-keeps :
    (r : Replica) (uuid digest : String)
    → Dict.get r.held uuid ≡ some digest
    → Dict.get (merge_manifests r).held uuid ≡ some digest
unfolding merge_manifests
merge_manifests-keeps r uuid digest h =
    merge_loop-keeps r.boot_gen r.manifests r.held [] uuid digest h
