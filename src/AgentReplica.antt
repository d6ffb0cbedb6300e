-- ===== src/AgentReplica.antt =====
-- `ReplicaTransportAgent` of qcbridge/ring1/transport_agent.py: its queues, hot values, heartbeat and
-- answers. Parameters stand for JSON: `decode` of a cold header, `read_control` of a control
-- message and `read_event` of an event; for the session's `handler`, `none` when it raises; and for
-- `join`, the joining of two texts. Times are ticks, 0 before the first ping.
pub mod Queues
use qcbridge.Prelude.{
  ℕ, zero, suc, ◌+◌, Bool, true, false, not, ◌&&◌, Option, none, some, List, [], ◌∷◌, ◌++◌, String,
  string_eq, nat_eq, ◌==◌, ltb, if◌then◌else◌, take, drop,
}
use qcbridge.Blob.{Bytes}
use qcbridge.PathMap.{same_text}
use qcbridge.AgentLink.{unpack_cold}

-- `T_CONTROL`, `T_HOT`, `T_COLD`, `T_FAST`, `T_EVENT`
abbrev pub t_control : ℕ
t_control = 1

abbrev pub t_hot : ℕ
t_hot = 2

abbrev pub t_cold : ℕ
t_cold = 3

abbrev pub t_fast : ℕ
t_fast = 5

abbrev pub t_event : ℕ
t_event = 32

-- The events that change the fields below.
pub data Event : Type 0 where
  attached : Option ℕ → Event
  status_session : Bool → Event
  rejected : Option String → Event
  quit : Event
  peer_up : Event
  peer_down : Option String → Event
  error_event : Option String → Event
  other_event : Event

-- A control message: a ping, or a request with its number.
pub data Control {ℓ} (A : Type ℓ) : Type ℓ where
  ping : Control A
  request : Option ℕ → A → Control A

-- What `_serve_control` sends back.
pub data Answer {ℓ} (A : Type ℓ) : Type ℓ where
  pong : Option A → Answer A
  reply_to : Option ℕ → A → Answer A
  failed : Option ℕ → Answer A

pub record Replica {ℓ} (H : Type ℓ) : Type ℓ where
  pub hot : Bytes → Option Bytes
  pub cold_q : List (H × Bytes)
  pub fast_q : List (H × Bytes)
  pub last_ping : ℕ
  pub port : ℕ
  pub link_note : String
  pub session_on : Bool
  pub quit_requested : Bool

-- `event.get(..) or ""`, and `event.get("port") or 0`
abbrev pub or_empty : Option String → String
or_empty none = ""
or_empty (some text) = text

abbrev pub or_zero : Option ℕ → ℕ
or_zero none = 0
or_zero (some n) = n

-- `event.get("reason") or "bad secret"`
unfoldable pub reason_of : Option String → String
reason_of none = "bad secret"
reason_of (some reason) = if reason == "" then "bad secret" else reason

-- The loop of `poll_cold` and `poll_fast`: what is taken, and what stays.
unfoldable pub pop_some {ℓ} : {A : Type ℓ} → ℕ → List A → List A × List A
pop_some zero q = ([], q)
pop_some (suc max_items) [] = ([], [])
pop_some (suc max_items) (x ∷ q) = let (items, rest) = pop_some max_items q in (x ∷ items, rest)

-- Appending a decoded message; one that does not decode is dropped.
unfoldable pub append_some {ℓ} : {A : Type ℓ} → List A → Option A → List A
append_some q none = q
append_some q (some x) = q ++ x ∷ []

-- The key and the value of a hot body; `none` when it has no length byte, where the source raises.
unfoldable pub read_hot : Bytes → Option (Bytes × Bytes)
read_hot (peer ∷ klen ∷ body) = some (take klen body, drop klen body)
read_hot _ = none

unfoldable pub put_hot : (Bytes → Option Bytes) → Option (Bytes × Bytes) → Bytes → Option Bytes
unfolding same_text
put_hot hot none k = hot k
put_hot hot (some (key, value)) k = if same_text key k then some value else hot k

module _ {ℓ} {H : Type ℓ} where
  -- `__init__`
  abbrev pub init : Replica H
  init = record {
    hot = λ k. none;
    cold_q = [];
    fast_q = [];
    last_ping = 0;
    port = 0;
    link_note = "";
    session_on = true;
    quit_requested = false;
  }

  unfoldable pub poll_fast : Replica H → ℕ → Replica H × List (H × Bytes)
  unfolding pop_some
  poll_fast r max_items =
      let (items, rest) = pop_some max_items r.fast_q in (record r { fast_q = rest }, items)

  unfoldable pub poll_cold : Replica H → ℕ → Replica H × List (H × Bytes)
  unfolding pop_some
  poll_cold r max_items =
      let (items, rest) = pop_some max_items r.cold_q in (record r { cold_q = rest }, items)

  unfoldable pub poll_hot_key : Replica H → Bytes → Option Bytes
  poll_hot_key r key = r.hot key

  -- `peer_alive`
  unfoldable pub peer_alive : Replica H → ℕ → ℕ → Bool
  peer_alive r window now = ltb 0 r.last_ping && ltb now (r.last_ping + window)

  unfoldable pub handle_event : (String → String → String) → Replica H → Event → Replica H
  unfolding reason_of
  handle_event join r (attached port) = record r { port = or_zero port }
  handle_event join r (status_session on) = record r { session_on = on }
  handle_event join r (rejected reason) = record r {
    link_note = join "agent refused the attach: " (reason_of reason);
  }
  handle_event join r quit = record r { quit_requested = true }
  handle_event join r peer_up = record r { link_note = "" }
  handle_event join r (peer_down reason) = record r { link_note = or_empty reason; last_ping = 0 }
  handle_event join r (error_event msg) = record r { link_note = or_empty msg }
  handle_event join r other_event = r

  module _ {κ} {A : Type κ} (handler : A → Option A) (status : Option A) where
    -- `_serve_control`; `status` is what the provider gives, none when it is absent or raises.
    unfoldable pub serve_control : Replica H → Control A → ℕ → Replica H × Answer A
    serve_control r ping now = (record r { last_ping = now }, pong status)
    serve_control r (request req msg) now = elim (handler msg) [
      | none ↦ (r, failed req)
      | some reply ↦ (r, reply_to req reply)
    ]

    module _ (encode : H → Bytes) (decode : Bytes → Option H)
        (read_control : Bytes → Option (Control A)) (read_event : Bytes → Event)
        (join : String → String → String) where
      -- `_on_frame`; `body[1:]` drops the byte of the peer.
      unfoldable pub on_frame : Replica H → ℕ → Bytes → ℕ → Replica H × Option (Answer A)
      unfolding serve_control put_hot read_hot append_some unpack_cold handle_event
      on_frame r kind body now =
          if kind == t_control
          then elim (read_control (drop 1 body)) [
            | none ↦ (r, none)
            | some msg ↦ let (r', answer) = serve_control r msg now in (r', some answer)
          ]
          else if kind == t_hot
          then (record r { hot = put_hot r.hot (read_hot body) }, none)
          else if kind == t_cold
          then (
            record r { cold_q = append_some r.cold_q (unpack_cold encode decode (drop 1 body)) },
            none,
          )
          else if kind == t_fast
          then (
            record r { fast_q = append_some r.fast_q (unpack_cold encode decode (drop 1 body)) },
            none,
          )
          else if kind == t_event
          then (handle_event join r (read_event body), none)
          else (r, none)
