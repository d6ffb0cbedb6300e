-- ===== src/Session/Driven.antt =====
-- What the session does to the host, as calls of the host's entry points.
use qcbridge.Prelude.{◌≡◌, Eq, List, [], ◌∷◌}
use qcbridge.HostSync.{Host}
use qcbridge.HostSync.Reached
use qcbridge.HostSync.Reached.{Call, after_all}
use qcbridge.Liveness
use qcbridge.Liveness.{ResyncPolicy}
use qcbridge.Session.{Session}
use qcbridge.Session.Spaced.{Event, step}

-- An event of the session, or a call that Blender's timers and handlers make on the host.
pub data Turn {ℓ} (V : Type ℓ) : Type ℓ where
  session_turn : Event V → Turn V
  host_turn : Call V → Turn V

module _ {ℓ} {V : Type ℓ} ⦃e : Eq V⦄ where
  unfoldable pub take_turn : Session V → Turn V → Session V
  unfolding step
  take_turn s (session_turn event) = step s event
  take_turn s (host_turn call) = record s { host = Reached.after s.host call }

  unfoldable pub take_turns : Session V → List (Turn V) → Session V
  unfolding take_turn
  take_turns s [] = s
  take_turns s (t ∷ ts) = take_turns (take_turn s t) ts

  -- The second host is what calls make of the first.
  pub record Ran (h h' : Host V) : Type ℓ where
    calls : List (Call V)
    same : h' ≡ after_all h calls
