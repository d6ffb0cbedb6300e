-- ===== src/AgentHost/Replies.antt =====
-- A reply is returned once, and only to the request that it answers.
use mathlib.Core.List.{append-nil}
use qcbridge.Prelude.{
  ◌∙◌, ℕ, ◌≤◌, ◌<◌, ◌≡◌, refl, Option, none, some, List, [], ◌∷◌, ◌++◌, String, nat_eq, ◌==◌,
  ==_refl, arith, if◌then◌else◌, Bool-cases, inl, inr, length, Option-cases, eqb_iff, ◌⊎◌,
}
use qcbridge.Dict
use qcbridge.Dict.{get-put, get-remove}
use qcbridge.AgentHost.{
  Host, Reply, Event, send_cold, send_fast, cold_ack, fast_ack, handle_event, handle_reply,
  append_reply, request_nowait, poll_reply, cancel_request, io_round,
}
use qcbridge.AgentHost.Credits.{
  Call, after, request_call, poll_call, cancel_call, cold_call, fast_call, cold_ack_call,
  fast_ack_call, reply_call, event_call, round_call,
}

-- Every open request has a number that was given out, so the next number is new.
pub record IsFresh {ℓ} {A : Type ℓ} (h : Host A) : Type ℓ where
  pub given : (req : ℕ) → h.next_req ≤ req → Dict.get h.pending req ≡ none

module _ {ℓ} {A : Type ℓ} (join : String → String → String) where
  -- The reply that a call returns, when it is a poll for `req`.
  unfoldable pub returned_by : ℕ → Host A → Call A → List (Reply A)
  returned_by req h (poll_call r) =
      if r == req then elim (poll_reply h r).1 [ none ↦ [] | some reply ↦ reply ∷ [] ] else []
  returned_by req h _ = []

  -- The replies that the polls for `req` return, in turn.
  unfoldable pub returned : ℕ → Host A → List (Call A) → List (Reply A)
  unfolding returned_by after
  returned req h [] = []
  returned req h (c ∷ cs) = returned_by req h c ++ returned req (after join h c) cs

  -- A closed request: its number was given out and it waits for nothing.
  abbrev Closed : Host A → ℕ → Type ℓ
  Closed h req = (Dict.get h.pending req ≡ none) × (req < h.next_req)

  get-append_reply :
      (pending : List (ℕ × List (Reply A))) (target : Option ℕ) (reply : Reply A) (req : ℕ)
      → Dict.get pending req ≡ none
      → Dict.get (append_reply pending target reply) req ≡ none
  unfolding append_reply
  get-append_reply pending none reply req h = h
  get-append_reply pending (some t) reply req h = elim (Option-cases (Dict.get pending t)) [
    | inl closed ↦ rw (closed, append_reply) h
    | inr (slot, opened) ↦
        rw (opened, append_reply)
          (get-put pending t (slot ++ reply ∷ []) req ∙ ground (arith, eqb_iff t req))
  ]

  get-poll_reply :
      (h : Host A) (r req : ℕ)
      → Dict.get h.pending req ≡ none
      → Dict.get (poll_reply h r).0.pending req ≡ none
  unfolding poll_reply
  get-poll_reply h r req e = ground (arith, get-remove h.pending r req)

  next-poll_reply : (h : Host A) (r : ℕ) → (poll_reply h r).0.next_req ≡ h.next_req
  unfolding poll_reply
  next-poll_reply h r = ground arith

  event-pending : (h : Host A) (e : Event) → (handle_event join h e).pending ≡ h.pending
  unfolding handle_event
  event-pending h e = ground arith

  event-next : (h : Host A) (e : Event) → (handle_event join h e).next_req ≡ h.next_req
  unfolding handle_event
  event-next h e = ground arith

  send_cold-pending :
      (h : Host A) (header : A) (payload : List ℕ) (size : ℕ)
      → ((send_cold h header payload size).0.pending ≡ h.pending)
        × ((send_cold h header payload size).0.next_req ≡ h.next_req)
  unfolding send_cold
  send_cold-pending h header payload size = ground arith

  send_fast-pending :
      (h : Host A) (header : A) (payload : List ℕ) (size : ℕ)
      → ((send_fast h header payload size).0.pending ≡ h.pending)
        × ((send_fast h header payload size).0.next_req ≡ h.next_req)
  unfolding send_fast
  send_fast-pending h header payload size = ground (arith, send_cold-pending h header payload size)

  after-next : (h : Host A) (c : Call A) → h.next_req ≤ (after join h c).next_req
  unfolding after request_nowait cancel_request cold_ack fast_ack handle_reply io_round
  after-next h (request_call msg) = omega arith
  after-next h (poll_call r) = ground (arith, next-poll_reply h r)
  after-next h (cancel_call r) = omega arith
  after-next h (cold_call header payload size) =
      ground (arith, send_cold-pending h header payload size)
  after-next h (fast_call header payload size) =
      ground (arith, send_fast-pending h header payload size)
  after-next h (cold_ack_call n) = omega arith
  after-next h (fast_ack_call n) = omega arith
  after-next h (reply_call reply now) = ground arith
  after-next h (event_call e) = ground (arith, event-next h e)
  after-next h (round_call interval misses now) = ground arith

  -- A request that is not open is not opened by a call that does not give out its number.
  after-none :
      (h : Host A) (c : Call A) (req : ℕ)
      → Dict.get h.pending req ≡ none
      → req < h.next_req ⊎ (after join h c).next_req ≤ req
      → Dict.get (after join h c).pending req ≡ none
  unfolding after request_nowait cancel_request cold_ack fast_ack handle_reply io_round
  after-none h (request_call msg) req e side =
      get-put h.pending h.next_req [] req ∙ ground (arith, eqb_iff h.next_req req)
  after-none h (poll_call r) req e side = get-poll_reply h r req e
  after-none h (cancel_call r) req e side = get-remove h.pending r req ∙ ground arith
  after-none h (cold_call header payload size) req e side =
      rw ((send_cold-pending h header payload size).0) e
  after-none h (fast_call header payload size) req e side =
      rw ((send_fast-pending h header payload size).0) e
  after-none h (cold_ack_call n) req e side = e
  after-none h (fast_ack_call n) req e side = e
  after-none h (reply_call reply now) req e side =
      ground (arith, get-append_reply h.pending reply.req reply req e)
  after-none h (event_call ev) req e side = rw (event-pending h ev) e
  after-none h (round_call interval misses now) req e side = ground arith

  after-IsFresh : (h : Host A) (c : Call A) → IsFresh h → IsFresh (after join h c)
  after-IsFresh h c fresh = record {
    given = λ req le. after-none h c req (fresh.given req (omega (arith, after-next h c))) (inr le);
  }

  after-Closed : (h : Host A) (c : Call A) (req : ℕ) → Closed h req → Closed (after join h c) req
  after-Closed h c req closed =
      (after-none h c req closed.0 (inl closed.1), omega (arith, closed.1, after-next h c))

  poll-none : (h : Host A) (req : ℕ) → Dict.get h.pending req ≡ none → (poll_reply h req).1 ≡ none
  unfolding poll_reply
  poll-none h req e = rw (e, poll_reply) refl

  poll-waiting :
      (h : Host A) (req : ℕ) → Dict.get h.pending req ≡ some [] → (poll_reply h req).1 ≡ none
  unfolding poll_reply
  poll-waiting h req e = rw (e, poll_reply) refl

  poll-closes :
      (h : Host A) (req : ℕ) (reply : Reply A) (v : Option (List (Reply A)))
      → IsFresh h
      → Dict.get h.pending req ≡ v
      → (poll_reply h req).1 ≡ some reply
      → Closed (poll_reply h req).0 req
  unfolding poll_reply Dict.get
  poll-closes h req reply none fresh known e = absurd (ground (arith, poll-none h req known, e))
  poll-closes h req reply (some []) fresh known e =
      absurd (ground (arith, poll-waiting h req known, e))
  poll-closes h req reply (some (x ∷ xs)) fresh known e =
      rw (known, poll_reply)
        (
          get-remove h.pending req req ∙ ground (arith, ==_refl req),
          ground (arith, fresh.given req, known),
        )

  returned_by-Closed : (req : ℕ) (h : Host A) (c : Call A) → Closed h req → returned_by req h c ≡ []
  unfolding returned_by
  returned_by-Closed req h (poll_call r) closed = elim (Bool-cases (r == req)) [
    | inl same ↦ let e = (eqb_iff r req).0 same in rw (same, e, poll-none h req closed.0) refl
    | inr other ↦ rw other refl
  ]
  returned_by-Closed req h c closed = refl

  returned-Closed :
      (req : ℕ) (h : Host A) (cs : List (Call A)) → Closed h req → returned req h cs ≡ []
  unfolding returned
  returned-Closed req h [] closed = refl
  returned-Closed req h (c ∷ cs) closed =
      rw
        (
          returned_by-Closed req h c closed,
          returned-Closed req (after join h c) cs (after-Closed h c req closed),
        )
        refl

  -- A call returns nothing for a request, or one reply, after which the request is closed.
  returned_by_cases :
      (req : ℕ) (h : Host A) (c : Call A)
      → IsFresh h
      → (returned_by req h c ≡ [])
        ⊎ (length (returned_by req h c) ≡ 1) × Closed (after join h c) req
  unfolding returned_by after
  returned_by_cases req h (poll_call r) fresh = elim (Bool-cases (r == req)) [
    | inl same ↦
        let e = (eqb_iff r req).0 same in
        elim (Option-cases (poll_reply h r).1) [
          | inl quiet ↦ inl (rw (same, quiet) refl)
          | inr (reply, got) ↦
              inr (rw (same, got) refl, rw e (poll-closes h req reply _ fresh refl (rw e at got)))
        ]
    | inr other ↦ inl (rw other refl)
  ]
  returned_by_cases req h c fresh = inl refl

  -- Whatever is called and whatever arrives, a request is answered at most once: all polls for one
  -- number together return at most one reply, when every open request has a number already given out.
  pub returned_once :
      (req : ℕ) (h : Host A) (cs : List (Call A)) → IsFresh h → length (returned req h cs) ≤ 1
  unfolding returned
  returned_once req h [] fresh = omega arith
  returned_once req h (c ∷ cs) fresh = elim (returned_by_cases req h c fresh) [
    | inl quiet ↦ rw quiet (returned_once req (after join h c) cs (after-IsFresh h c fresh))
    | inr (one, closed) ↦
        rw (returned-Closed req (after join h c) cs closed, append-nil) (omega (arith, one))
  ]
