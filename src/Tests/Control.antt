-- ===== src/Tests/Control.antt =====
-- Concrete inputs for the host's side of qcbridge/ring0/session.py: a session whose replica asks for
-- a repair twice.
use qcbridge.Prelude.{ℕ, true, false, none, some, List, [], ◌∷◌, string_eq, nat_eq}
use qcbridge.HostSync.Reached
use qcbridge.HostSync.Reached.{scan_call, tick_call}
use qcbridge.HostSync.Repair.{no_reply}
use qcbridge.Liveness
use qcbridge.Liveness.{Status}
use qcbridge.Liveness.Rate.{Spaced}
use qcbridge.Session.{Session, Pong, accepted}
use qcbridge.Session.Spaced.{
  Event, peer_event, hello_event, watch_event, boot_times, boot_times-Spaced,
}
use qcbridge.Session.Driven.{Turn, session_turn, host_turn}
use qcbridge.Tests.Host.{world, stuck_host, session_answers}

abbrev session : Session ℕ
session = record {
  host = stuck_host;
  policy = Liveness.init 10000 2000;
  armed = true;
  request = none;
  lost = false;
  reconnect = false;
  peer_epoch = none;
  peer_caps = [];
  epochs = 0;
  auto_resyncs = 0;
  fast_resyncs = 0;
  delta_resyncs = 0;
}

abbrev pong_of : ℕ → Pong
pong_of resyncs = record {
  status = record {
    epoch = some "e1";
    want_resync = true;
    bootstraps = some 1;
    resyncs = resyncs;
    gap_lane = "cold";
    fast_gap_at = none;
  };
  scene_digest = none;
  held_digest = none;
  need_libs = [];
}

-- A handshake is sent and answered, the replica asks twice, is lost and comes back.
abbrev session_events : List (Event ℕ)
session_events =
    hello_event (world 35) 15000 none none
    ∷ hello_event (world 35) 16000 none (some (accepted (some "e1") []))
    ∷ watch_event (world 35) 17000 no_reply (pong_of 0)
    ∷ watch_event (world 35) 18000 no_reply (pong_of 1)
    ∷ peer_event false false
    ∷ peer_event true false
    ∷ watch_event (world 35) 30000 no_reply (pong_of 1)
    ∷ []

boot_times-Spaced_example : Spaced 10000 none (boot_times session session_events)
boot_times-Spaced_example = boot_times-Spaced session session_events

-- A session of a fresh host: the scan and ticks run between the events of the session.
abbrev fresh_session : Session ℕ
fresh_session = record session { host = Reached.init 8 session_answers }

abbrev session_turns : List (Turn ℕ)
session_turns =
    host_turn (scan_call (world 35))
    ∷ session_turn (hello_event (world 35) 15000 none none)
    ∷ session_turn (hello_event (world 35) 16000 none (some (accepted (some "e1") [])))
    ∷ host_turn (tick_call (world 35) 16025 false)
    ∷ session_turn (watch_event (world 35) 17000 no_reply (pong_of 0))
    ∷ host_turn (tick_call (world 50) 17025 false)
    ∷ []
