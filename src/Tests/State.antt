-- ===== src/Tests/State.antt =====
-- Concrete inputs for the host's bookkeeping: qcbridge/ring1/dirtyset.py, registry.py, liveness.py.
use qcbridge.Prelude.{
  ℕ, ◌≡◌, refl, ◌≢◌, true, none, some, List, [], ◌∷◌, string_eq, nat_eq, arith, ◌⊎◌,
}
use qcbridge.Dict
use qcbridge.Dict.{keys}
use qcbridge.KeySet.{has, Distinct}
use qcbridge.DirtySet
use qcbridge.DirtySet.{DirtySet, Tier, t1, t2, dirty, tombstone, mark, drain, is_tombstone}
use qcbridge.DirtySet.Ratchet
use qcbridge.DirtySet.Ratchet.{rank, IsValid, mark-rank, calls-IsValid}
use qcbridge.DirtySet.Drain.{
  tier_of, known_after, drain_lem, drain-requeue, requeue_tombstones, requeue_changed,
}
use qcbridge.Registry
use qcbridge.Registry.{
  Registry, claim, Claim, claimed, collision, forget_uuid, uuid_for, session_uid_for,
}
use qcbridge.Registry.Inverse.{IsInverse, init-IsInverse, claim-IsInverse, claim_lem}
use qcbridge.Liveness
use qcbridge.Liveness.{
  ResyncPolicy, Question, Status, Verdict, full, fast, nothing, absent, decide, state_of,
}
use qcbridge.Liveness.Rate
use qcbridge.Liveness.Rate.{Spaced, all_full_times, all_quick_times, grants-Spaced, decide_once}

abbrev dirty_set : DirtySet
dirty_set = record { entries = ("lamp", dirty t2) ∷ ("cube", tombstone) ∷ []; sent = "cube" ∷ [] }

abbrev edits : List Ratchet.Call
edits =
    Ratchet.mark_call "lamp" t1
    ∷ Ratchet.drain_call
    ∷ Ratchet.mark_deleted_call "lamp"
    ∷ Ratchet.mark_call "lamp" t2
    ∷ []

calls-IsValid_example : IsValid (Ratchet.after_all DirtySet.init edits)
calls-IsValid_example = calls-IsValid edits

distinct_example : Distinct (keys dirty_set.entries)
unfolding has
distinct_example = (refl, (refl, tt))

drain_lem_example :
    ((drain dirty_set).0.entries ≡ [])
    × Distinct (drain dirty_set).1
    × Distinct (keys (drain dirty_set).2)
    × (has (drain dirty_set).1 "cube" ≡ is_tombstone (Dict.get dirty_set.entries "cube"))
    × (Dict.get (drain dirty_set).2 "cube" ≡ tier_of (Dict.get dirty_set.entries "cube"))
    × (has (drain dirty_set).0.sent "cube"
        ≡ known_after (Dict.get dirty_set.entries "cube") (has dirty_set.sent "cube"))
drain_lem_example = drain_lem dirty_set "cube" distinct_example

drain-requeue_example :
    Dict.get
      (requeue_changed
        (requeue_tombstones (drain dirty_set).0 (drain dirty_set).1)
        (drain dirty_set).2).entries
      "cube"
    ≡ Dict.get dirty_set.entries "cube"
drain-requeue_example = drain-requeue dirty_set "cube" distinct_example

abbrev registry : Registry
registry = (claim Registry.init "lamp" 7).0

lamp_registered : IsInverse registry
lamp_registered = claim-IsInverse Registry.init "lamp" 7 init-IsInverse

claim_lem_example :
    ((session_uid_for registry "lamp" ≡ none) ⊎ (session_uid_for registry "lamp" ≡ some 8))
      × ((claim registry "lamp" 8).1 ≡ claimed)
      × (session_uid_for (claim registry "lamp" 8).0 "lamp" ≡ some 8)
      × (uuid_for (claim registry "lamp" 8).0 8 ≡ some "lamp")
    ⊎ ((claim registry "lamp" 8).1 ≡ collision)
      × ((claim registry "lamp" 8).0 ≡ registry)
      × ((holder : ℕ) × (session_uid_for registry "lamp" ≡ some holder) × (holder ≢ 8))
claim_lem_example = claim_lem registry "lamp" 8 lamp_registered

abbrev wants_resync : Status
wants_resync = record {
  epoch = some "e1";
  want_resync = true;
  bootstraps = some 1;
  resyncs = 0;
  gap_lane = "cold";
  fast_gap_at = none;
}

abbrev question : ℕ → Question
question now = record {
  status = wants_resync;
  now = now;
  caps = none;
  fast_covers = none;
  delta_state = absent;
}

abbrev policy : ResyncPolicy
policy = Liveness.init 5000 2000

abbrev questions : List Rate.Call
questions = Rate.decide_call (question 10) ∷ Rate.allow_call 20 ∷ Rate.allow_call 6000 ∷ []

grants-Spaced_example :
    Spaced policy.min_interval policy.last_sent (all_full_times policy questions)
    × Spaced policy.fast_interval policy.last_fast (all_quick_times policy questions)
grants-Spaced_example = grants-Spaced policy questions

full_example : (decide policy (question 10)).1 ≡ full
unfolding decide Liveness.served Liveness.can Liveness.answer_full Liveness.too_soon
full_example = ground arith

not_nothing_example : (decide policy (question 10)).1 ≢ nothing
not_nothing_example h = ground (arith, full_example, h)

decide_once_example :
    decide (decide policy (question 10)).0 (question 9000)
    ≡ ((decide policy (question 10)).0, nothing)
decide_once_example = decide_once policy (question 10) (question 9000) not_nothing_example refl
