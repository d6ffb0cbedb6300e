-- ===== src/Liveness.antt =====
-- qcbridge/ring1/liveness.py: what the host concludes from the pong's status. Times are ticks of
-- the host's monotonic clock, a subtraction of the source is the equivalent sum, and `none` stands
-- for the initial minus infinity.
pub mod Rate
use qcbridge.Prelude.{
  ℕ, ◌+◌, Bool, true, false, not, ◌&&◌, ◌||◌, Option, none, some, List, [], ◌∷◌, String, string_eq,
  nat_eq, ◌==◌, ltb, if◌then◌else◌,
}
use qcbridge.KeySet.{has}

-- The entries of the status that are read; `epoch` and `bootstraps` may be absent.
pub record Status : Type 0 where
  pub epoch : Option String
  pub want_resync : Bool
  pub bootstraps : Option ℕ
  pub resyncs : ℕ
  pub gap_lane : String
  pub fast_gap_at : Option ℕ

unfoldable pub replica_restarted : Status → Option String → Bool
replica_restarted status known_epoch = elim status.epoch [
  | none ↦ false
  | some epoch ↦ elim known_epoch [
    | none ↦ false
    | some known ↦ not (epoch == "") && not (epoch == known)
  ]
]

-- `(bootstraps, resyncs)`
abbrev pub State : Type 0
State = Option ℕ × ℕ

unfoldable pub same_bootstraps : Option ℕ → Option ℕ → Bool
same_bootstraps none none = true
same_bootstraps (some a) (some b) = a == b
same_bootstraps _ _ = false

unfoldable pub served : State → Option State → Bool
unfolding same_bootstraps
served state none = false
served (b, r) (some (b', r')) = same_bootstraps b b' && r == r'

pub record ResyncPolicy : Type 0 where
  pub min_interval : ℕ
  pub fast_interval : ℕ
  pub last_sent : Option ℕ
  pub last_fast : Option ℕ
  pub served_for : Option State
  pub sent : ℕ
  pub fast_sent : ℕ
  pub delta_sent : ℕ

-- `__init__`
abbrev pub init : ℕ → ℕ → ResyncPolicy
init min_interval fast_interval = record {
  min_interval = min_interval;
  fast_interval = fast_interval;
  last_sent = none;
  last_fast = none;
  served_for = none;
  sent = 0;
  fast_sent = 0;
  delta_sent = 0;
}

-- `VERDICTS`
pub data Verdict : Type 0 where
  nothing fast delta full : Verdict

-- `_state`
abbrev pub state_of : Status → State
state_of status = (status.bootstraps, status.resyncs)

-- `now - last < interval`
unfoldable pub too_soon : Option ℕ → ℕ → ℕ → Bool
too_soon none interval now = false
too_soon (some last) interval now = ltb now (last + interval)

-- `caps and cap in caps`
unfoldable pub can : Option (List String) → String → Bool
unfolding has
can none cap = false
can (some caps) cap = has caps cap

-- `fast_covers is not None and fast_covers(seq)`
unfoldable pub covered : Option (Option ℕ → Bool) → Option ℕ → Bool
covered none seq = false
covered (some covers) seq = covers seq

pub data DeltaState : Type 0 where
  absent ready pending mismatch : DeltaState

-- `delta_state in ("ready", "pending")`
abbrev pub is_open : DeltaState → Bool
is_open ready = true
is_open pending = true
is_open _ = false

abbrev pub is_pending : DeltaState → Bool
is_pending pending = true
is_pending _ = false

-- What a call of `decide` is given.
pub record Question : Type 0 where
  pub status : Status
  pub now : ℕ
  pub caps : Option (List String)
  pub fast_covers : Option (Option ℕ → Bool)
  pub delta_state : DeltaState

-- The three answers, each behind its rate limit.
unfoldable pub answer_fast : ResyncPolicy → State → ℕ → ResyncPolicy × Verdict
unfolding too_soon
answer_fast p state now = if too_soon p.last_fast p.fast_interval now then (p, nothing) else (
  record p { last_fast = some now; served_for = some state; fast_sent = p.fast_sent + 1 },
  fast,
)

unfoldable pub answer_delta : ResyncPolicy → State → ℕ → ResyncPolicy × Verdict
unfolding too_soon
answer_delta p state now = if too_soon p.last_fast p.fast_interval now then (p, nothing) else (
  record p { last_fast = some now; served_for = some state; delta_sent = p.delta_sent + 1 },
  delta,
)

unfoldable pub answer_full : ResyncPolicy → State → ℕ → ResyncPolicy × Verdict
unfolding too_soon
answer_full p state now =
    if too_soon p.last_sent p.min_interval now
    then (p, nothing)
    else (record p { last_sent = some now; served_for = some state; sent = p.sent + 1 }, full)

unfoldable pub decide : ResyncPolicy → Question → ResyncPolicy × Verdict
unfolding served can covered answer_fast answer_delta answer_full
decide p q =
    let state = state_of q.status in
    if not q.status.want_resync
    then (p, nothing)
    else if served state p.served_for
    then (p, nothing)
    else if q.status.gap_lane == "fast"
        && can q.caps "fast_ack"
        && covered q.fast_covers q.status.fast_gap_at
    then answer_fast p state q.now
    else if can q.caps "delta_resync" && is_open q.delta_state
    then (if is_pending q.delta_state then (p, nothing) else answer_delta p state q.now)
    else answer_full p state q.now

unfoldable pub allow_full : ResyncPolicy → ℕ → ResyncPolicy × Bool
unfolding too_soon
allow_full p now =
    if too_soon p.last_sent p.min_interval now
    then (record p { served_for = none }, false)
    else (record p { last_sent = some now; sent = p.sent + 1 }, true)

abbrev pub is_full : Verdict → Bool
is_full full = true
is_full _ = false

-- `decide(status, now)` with no capabilities.
unfoldable pub should_resync : ResyncPolicy → Status → ℕ → ResyncPolicy × Bool
unfolding decide
should_resync p status now =
    let (p', verdict) = decide p (record {
      status = status;
      now = now;
      caps = none;
      fast_covers = none;
      delta_state = absent;
    }) in
    (p', is_full verdict)

unfoldable pub reset : ResyncPolicy → Option State → ResyncPolicy
reset p served_for = record p { served_for = served_for }
