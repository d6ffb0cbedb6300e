-- ===== src/AgentReplica/Queues.antt =====
-- Messages leave the queues in the order in which they came.
use mathlib.Core.List.{append_assoc, append-nil}
use qcbridge.Prelude.{
  ℕ, zero, suc, ◌≡◌, refl, sym, ap, ◌∙◌, Option, none, some, List, [], ◌∷◌, ◌++◌, String, nat_eq,
  ◌==◌, if◌then◌else◌, drop, arith, Bool-cases, Option-cases, inl, inr,
}
use qcbridge.Blob.{Bytes}
use qcbridge.AgentLink.{unpack_cold}
use qcbridge.AgentReplica.{
  Replica, Control, Event, poll_fast, poll_cold, on_frame, pop_some, append_some, serve_control,
  handle_event, t_cold, ping, request,
}

-- Frames from the agent, with their time, and polls of the apply loop.
pub data Step : Type 0 where
  frame_step : ℕ → Bytes → ℕ → Step
  cold_step fast_step : ℕ → Step

pop_some-append {ℓ} : {A : Type ℓ} (n : ℕ) (q : List A) → (pop_some n q).0 ++ (pop_some n q).1 ≡ q
unfolding pop_some
pop_some-append zero q = refl
pop_some-append (suc n) [] = refl
pop_some-append (suc n) (x ∷ q) = ap (◌∷◌ x) (pop_some-append n q)

module _ {ℓ κ} {H : Type ℓ} {A : Type κ} (handler : A → Option A) (status : Option A)
    (encode : H → Bytes) (decode : Bytes → Option H) (read_control : Bytes → Option (Control A))
    (read_event : Bytes → Event) (join : String → String → String) where
  unfoldable pub after : Replica H → Step → Replica H
  after r (frame_step kind body now) =
      (on_frame handler status encode decode read_control read_event join r kind body now).0
  after r (cold_step n) = (poll_cold r n).0
  after r (fast_step n) = (poll_fast r n).0

  unfoldable pub after_all : Replica H → List Step → Replica H
  unfolding after
  after_all r [] = r
  after_all r (s ∷ ss) = after_all (after r s) ss

  -- The cold messages that a step brings, and those that it hands out.
  unfoldable pub brought : Step → List (H × Bytes)
  unfolding append_some unpack_cold
  brought (frame_step kind body now) =
      if kind == t_cold then append_some [] (unpack_cold encode decode (drop 1 body)) else []
  brought _ = []

  unfoldable pub handed_out : Replica H → Step → List (H × Bytes)
  handed_out r (cold_step n) = (poll_cold r n).1
  handed_out r _ = []

  unfoldable pub brought_all : List Step → List (H × Bytes)
  unfolding brought
  brought_all [] = []
  brought_all (s ∷ ss) = brought s ++ brought_all ss

  unfoldable pub handed_out_all : Replica H → List Step → List (H × Bytes)
  unfolding handed_out after
  handed_out_all r [] = []
  handed_out_all r (s ∷ ss) = handed_out r s ++ handed_out_all (after r s) ss

  serve-cold :
      (r : Replica H) (msg : Control A) (now : ℕ)
      → (serve_control handler status r msg now).0.cold_q ≡ r.cold_q
  unfolding serve_control
  serve-cold r ping now = refl
  serve-cold r (request req msg) now = elim (Option-cases (handler msg)) [
    | inl e ↦ rw (e, serve_control) refl
    | inr (a, e) ↦ rw (e, serve_control) refl
  ]

  event-cold : (r : Replica H) (e : Event) → (handle_event join r e).cold_q ≡ r.cold_q
  unfolding handle_event
  event-cold r e = ground arith

  append_some-append :
      (q : List (H × Bytes)) (m : Option (H × Bytes)) → append_some q m ≡ q ++ append_some [] m
  unfolding append_some
  append_some-append q none = sym (append-nil q)
  append_some-append q (some x) = refl

  frame-cold :
      (r : Replica H) (kind : ℕ) (body : Bytes) (now : ℕ)
      → (on_frame handler status encode decode read_control read_event join r kind body
          now).0.cold_q
        ≡ (if kind == t_cold
            then append_some r.cold_q (unpack_cold encode decode (drop 1 body))
            else r.cold_q)
  unfolding on_frame
  frame-cold r kind body now = elim (Option-cases (read_control (drop 1 body))) [
    | inl e ↦ ground (arith, e, event-cold r (read_event body))
    | inr (msg, e) ↦ ground (arith, e, event-cold r (read_event body), serve-cold r msg now)
  ]

  frame-brought :
      (r : Replica H) (kind : ℕ) (body : Bytes) (now : ℕ)
      → (on_frame handler status encode decode read_control read_event join r kind body
          now).0.cold_q
        ≡ r.cold_q ++ brought (frame_step kind body now)
  unfolding brought
  frame-brought r kind body now = frame-cold r kind body now ∙ elim (Bool-cases (kind == t_cold)) [
    | inl e ↦ rw e (append_some-append r.cold_q (unpack_cold encode decode (drop 1 body)))
    | inr e ↦ rw e (sym (append-nil r.cold_q))
  ]

  poll-cold : (r : Replica H) (n : ℕ) → (poll_cold r n).1 ++ (poll_cold r n).0.cold_q ≡ r.cold_q
  unfolding poll_cold
  poll-cold r n = pop_some-append n r.cold_q

  poll-fast : (r : Replica H) (n : ℕ) → (poll_fast r n).0.cold_q ≡ r.cold_q
  unfolding poll_fast
  poll-fast r n = refl

  step-cold :
      (r : Replica H) (s : Step) → handed_out r s ++ (after r s).cold_q ≡ r.cold_q ++ brought s
  unfolding handed_out after brought
  step-cold r (frame_step kind body now) = frame-brought r kind body now
  step-cold r (cold_step n) = poll-cold r n ∙ sym (append-nil r.cold_q)
  step-cold r (fast_step n) = poll-fast r n ∙ sym (append-nil r.cold_q)

  -- Whatever frames arrive and however the polls fall between them, the cold messages handed out,
  -- followed by those still queued, are those queued at the start and those that arrived, in order.
  pub cold_in_order :
      (r : Replica H) (ss : List Step)
      → handed_out_all r ss ++ (after_all r ss).cold_q ≡ r.cold_q ++ brought_all ss
  unfolding handed_out_all after_all brought_all
  cold_in_order r [] = sym (append-nil r.cold_q)
  cold_in_order r (s ∷ ss) =
      append_assoc (handed_out r s) (handed_out_all (after r s) ss)
        (after_all (after r s) ss).cold_q
      ∙ ap (◌++◌ (handed_out r s)) (cold_in_order (after r s) ss)
      ∙ sym (append_assoc (handed_out r s) (after r s).cold_q (brought_all ss))
      ∙ ap (λ (q : List (H × Bytes)). q ++ brought_all ss) (step-cold r s)
      ∙ append_assoc r.cold_q (brought s) (brought_all ss)
