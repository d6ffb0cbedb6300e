-- ===== src/AgentHost/Credits.antt =====
-- How much a host transport may have in flight.
use Prim.Native.Nat.{max}
use qcbridge.Prelude.{
  ℕ, ◌+◌, ◌-◌, ◌≤◌, ◌≡◌, Bool, true, not, ◌&&◌, ◌||◌, List, [], ◌∷◌, String, nat_eq, if◌then◌else◌,
}
use qcbridge.AgentHost.{
  Host, Reply, Event, send_cold, send_fast, cold_ack, fast_ack, handle_event, handle_reply,
  request_nowait, poll_reply, cancel_request, io_round, cold_window, cold_window_bytes, attached,
  is_bytes,
}

-- The calls of a transport, and the frames from the agent.
pub data Call {ℓ} (A : Type ℓ) : Type ℓ where
  request_call : A → Call A
  poll_call cancel_call : ℕ → Call A
  cold_call fast_call : A → List ℕ → ℕ → Call A
  cold_ack_call fast_ack_call : ℕ → Call A
  reply_call : Reply A → ℕ → Call A
  event_call : Event → Call A
  round_call : ℕ → ℕ → ℕ → Call A

module _ {ℓ} {A : Type ℓ} (join : String → String → String) where
  unfoldable pub after : Host A → Call A → Host A
  after h (request_call msg) = (request_nowait h msg).0
  after h (poll_call req) = (poll_reply h req).0
  after h (cancel_call req) = cancel_request h req
  after h (cold_call header payload size) = (send_cold h header payload size).0
  after h (fast_call header payload size) = (send_fast h header payload size).0
  after h (cold_ack_call count) = cold_ack h count
  after h (fast_ack_call count) = fast_ack h count
  after h (reply_call reply now) = handle_reply h reply now
  after h (event_call event) = handle_event join h event
  after h (round_call interval misses now) = (io_round interval misses h now).0

  unfoldable pub after_all : Host A → List (Call A) → Host A
  unfolding after
  after_all h [] = h
  after_all h (c ∷ cs) = after_all (after h c) cs

-- The bytes of a call's frame.
abbrev pub size_of {ℓ} : {A : Type ℓ} → Call A → ℕ
size_of (cold_call header payload size) = size
size_of (fast_call header payload size) = size
size_of _ = 0

-- What may be in flight on the cold lane: with the credits in bytes, its window or one frame when a
-- frame is larger; 64 messages otherwise.
abbrev pub cold_bound : Bool → ℕ → ℕ
cold_bound bytes largest = if bytes then max cold_window_bytes largest else cold_window

-- The agent does not change the unit of the credits in the call.
abbrev pub keeps_unit {ℓ} : {A : Type ℓ} → Bool → Call A → Bool
keeps_unit bytes (event_call (attached up credits lanes)) =
    is_bytes credits && bytes || not (is_bytes credits) && not bytes
keeps_unit bytes _ = true

-- A call that meets both conditions: the unit stays, and no frame is larger than `largest`.
abbrev pub Fits {ℓ} : {A : Type ℓ} → Bool → ℕ → Call A → Type 0
Fits bytes largest c = (keeps_unit bytes c ≡ true) × (size_of c ≤ largest)

module _ {ℓ} {A : Type ℓ} where
  -- The frames that a call put on the cold lane, in the unit of the credits, and those that it
  -- acknowledged.
  unfoldable pub charged : Bool → Host A → Call A → ℕ → ℕ
  charged bytes h (cold_call header payload size) n =
      if (send_cold h header payload size).1 then n + (if bytes then size else 1) else n
  charged bytes h (fast_call header payload size) n =
      if not h.has_fast && (send_fast h header payload size).1
      then n + (if bytes then size else 1)
      else n
  charged bytes h (cold_ack_call count) n = n - count
  charged bytes h _ n = n

module _ {ℓ} {A : Type ℓ} (join : String → String → String) where
  -- What is in flight on the cold lane by the calls themselves, `n` at the start.
  unfoldable pub in_flight : Bool → Host A → List (Call A) → ℕ → ℕ
  unfolding after charged
  in_flight bytes h [] n = n
  in_flight bytes h (c ∷ cs) n = in_flight bytes (after join h c) cs (charged bytes h c n)
