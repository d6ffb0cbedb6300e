-- ===== src/AgentHost.antt =====
-- `HostTransportAgent` of qcbridge/ring1/transport_agent.py: requests, the two credit windows, the
-- heartbeat, and the agent's events. `A` stands for a JSON object that is only passed on. Times are
-- ticks of the host's clock, 0 before the first pong; a frame handed to the link is returned.
pub mod Credits
pub mod Replies
use qcbridge.Prelude.{
  ℕ, zero, suc, ◌+◌, ◌-◌, ◌*◌, ◌^◌, Bool, true, false, not, ◌&&◌, ◌||◌, Option, none, some, List,
  [], ◌∷◌, ◌++◌, String, string_eq, nat_eq, ltb, if◌then◌else◌, length, ◌==◌,
}
use qcbridge.Dict
use qcbridge.KeySet.{has}

-- `_COLD_WINDOW`, `_COLD_WINDOW_BYTES`, `_FAST_WINDOW_BYTES`
abbrev pub cold_window : ℕ
cold_window = 64

abbrev pub cold_window_bytes : ℕ
cold_window_bytes = 32 * 2 ^ 20

abbrev pub fast_window_bytes : ℕ
fast_window_bytes = 4 * 2 ^ 20

-- The entries of a reply that are read.
pub record Reply {ℓ} (A : Type ℓ) : Type ℓ where
  pub is_pong : Bool
  pub req : Option ℕ
  pub status : Option A
  pub content : A

-- What is handed to the link.
pub data Outgoing {ℓ} (A : Type ℓ) : Type ℓ where
  request_frame : A → ℕ → Outgoing A
  ping_frame : Outgoing A
  cold_frame fast_frame : A → List ℕ → Outgoing A

pub record Host {ℓ} (A : Type ℓ) : Type ℓ where
  pub pending : List (ℕ × List (Reply A))
  pub next_req : ℕ
  pub last_pong : ℕ
  pub alive : Bool
  pub link_up : Bool
  pub cold_outstanding : ℕ
  pub fast_outstanding : ℕ
  pub credits_bytes : Bool
  pub has_fast : Bool
  pub peer_status : Option A
  pub cold_dropped : ℕ
  pub link_note : String
  pub next_ping : ℕ

-- `not up or (outstanding and outstanding + cost > window)`
unfoldable pub refuses : Bool → ℕ → ℕ → ℕ → Bool
refuses up outstanding cost window =
    not up || not (outstanding == 0) && ltb window (outstanding + cost)

-- `cost` and `window` of `send_cold`
unfoldable pub cold_cost : Bool → ℕ → ℕ
cold_cost credits_bytes size = if credits_bytes then size else 1

unfoldable pub window_of : Bool → ℕ
window_of credits_bytes = if credits_bytes then cold_window_bytes else cold_window

module _ {ℓ} {A : Type ℓ} where
  -- `__init__`
  abbrev pub init : Host A
  init = record {
    pending = [];
    next_req = 1;
    last_pong = 0;
    alive = false;
    link_up = false;
    cold_outstanding = 0;
    fast_outstanding = 0;
    credits_bytes = false;
    has_fast = false;
    peer_status = none;
    cold_dropped = 0;
    link_note = "";
    next_ping = 0;
  }

  unfoldable pub request_nowait : Host A → A → Host A × ℕ × Outgoing A
  unfolding Dict.put
  request_nowait h msg = (
    record h { pending = Dict.put h.pending h.next_req []; next_req = h.next_req + 1 },
    h.next_req,
    request_frame msg h.next_req,
  )

  -- `poll_reply`
  unfoldable pub poll_reply : Host A → ℕ → Host A × Option (Reply A)
  unfolding Dict.get Dict.remove
  poll_reply h req = elim (Dict.get h.pending req) [
    | none ↦ (h, none)
    | some [] ↦ (h, none)
    | some (reply ∷ _) ↦ (record h { pending = Dict.remove h.pending req }, some reply)
  ]

  unfoldable pub cancel_request : Host A → ℕ → Host A
  unfolding Dict.remove
  cancel_request h req = record h { pending = Dict.remove h.pending req }

  -- `slot.append(reply)` of the request named
  unfoldable pub append_reply :
      List (ℕ × List (Reply A)) → Option ℕ → Reply A → List (ℕ × List (Reply A))
  unfolding Dict.get Dict.put
  append_reply pending none reply = pending
  append_reply pending (some req) reply = elim (Dict.get pending req) [
    | none ↦ pending
    | some slot ↦ Dict.put pending req (slot ++ reply ∷ [])
  ]

  -- `if isinstance(status, dict): self.peer_status = status`
  unfoldable pub new_status : Option A → Option A → Option A
  new_status none old = old
  new_status (some status) old = some status

  -- `_handle_reply`
  unfoldable pub handle_reply : Host A → Reply A → ℕ → Host A
  unfolding append_reply new_status
  handle_reply h reply now =
      if reply.is_pong
      then record h { last_pong = now; peer_status = new_status reply.status h.peer_status }
      else record h { pending = append_reply h.pending reply.req reply }

  -- `send_cold`, for a frame whose parts have `size` bytes
  unfoldable pub send_cold : Host A → A → List ℕ → ℕ → Host A × Bool × List (Outgoing A)
  unfolding refuses cold_cost window_of
  send_cold h header payload size =
      let cost = cold_cost h.credits_bytes size in
      if refuses h.link_up h.cold_outstanding cost (window_of h.credits_bytes)
      then (h, false, [])
      else (
        record h { cold_outstanding = h.cold_outstanding + cost },
        true,
        cold_frame header payload ∷ [],
      )

  unfoldable pub send_fast : Host A → A → List ℕ → ℕ → Host A × Bool × List (Outgoing A)
  unfolding refuses send_cold
  send_fast h header payload size =
      if not h.has_fast
      then send_cold h header payload size
      else if refuses h.link_up h.fast_outstanding size fast_window_bytes
      then (h, false, [])
      else (
        record h { fast_outstanding = h.fast_outstanding + size },
        true,
        fast_frame header payload ∷ [],
      )

  -- The branches T_COLD_ACK and T_FAST_ACK of `_on_frame`: `max(0, outstanding - count)`.
  unfoldable pub cold_ack : Host A → ℕ → Host A
  cold_ack h count = record h { cold_outstanding = h.cold_outstanding - count }

  unfoldable pub fast_ack : Host A → ℕ → Host A
  fast_ack h count = record h { fast_outstanding = h.fast_outstanding - count }

-- The events of `_handle_event` that change the fields above.
pub data Event : Type 0 where
  attached : Bool → Option String → List String → Event
  rejected : Option String → Event
  peer_up : Event
  peer_down : Option String → Event
  cold_dropped_event : Option ℕ → Event
  error_event : Option String → Event
  other_event : Event

-- `event.get(..) or ""`
abbrev pub text_or_empty : Option String → String
text_or_empty none = ""
text_or_empty (some text) = text

-- `int(event.get("n") or 1)`
unfoldable pub dropped_count : Option ℕ → ℕ
dropped_count none = 1
dropped_count (some n) = if n == 0 then 1 else n

-- `event.get("credits") == "bytes"`
unfoldable pub is_bytes : Option String → Bool
is_bytes none = false
is_bytes (some credits) = credits == "bytes"

-- `"agent refused the attach: " + (event.get("reason") or "bad secret")`; the text is joined by `join`.
unfoldable pub refusal : (String → String → String) → Option String → String
refusal join none = join "agent refused the attach: " "bad secret"
refusal join (some reason) =
    join "agent refused the attach: " (if reason == "" then "bad secret" else reason)

module _ {ℓ} {A : Type ℓ} where
  unfoldable pub handle_event : (String → String → String) → Host A → Event → Host A
  unfolding has dropped_count is_bytes refusal
  handle_event join h (attached up credits lanes) = record h {
    link_up = up;
    credits_bytes = is_bytes credits;
    has_fast = has lanes "fast";
  }
  handle_event join h (rejected reason) = record h { link_note = refusal join reason }
  handle_event join h peer_up = record h { link_up = true; link_note = "" }
  handle_event join h (peer_down reason) = record h {
    link_up = false;
    link_note = text_or_empty reason;
    last_pong = 0;
  }
  handle_event join h (cold_dropped_event n) = record h {
    cold_dropped = h.cold_dropped + dropped_count n;
  }
  handle_event join h (error_event msg) = record h { link_note = text_or_empty msg }
  handle_event join h other_event = h

  -- `alive` of `_io_loop`: `self._last_pong > 0 and now - self._last_pong < window`
  unfoldable pub is_alive : Host A → ℕ → ℕ → Bool
  is_alive h window now = h.link_up && ltb 0 h.last_pong && ltb now (h.last_pong + window)

  -- One round of `_io_loop`: the frames sent and the state told to the callback, when it changed.
  unfoldable pub io_round : ℕ → ℕ → Host A → ℕ → Host A × List (Outgoing A) × Option Bool
  unfolding is_alive
  io_round interval misses h now =
      let ping = h.link_up && not (ltb now h.next_ping) in
      let h' = if ping then record h { next_ping = now + interval } else h in
      let alive = is_alive h (interval * misses) now in
      (
        record h' { alive = alive },
        (if ping then ping_frame ∷ [] else []),
        (if alive && h.alive || not alive && not h.alive then none else some alive),
      )
