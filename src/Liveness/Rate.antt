-- ===== src/Liveness/Rate.antt =====
-- The rate limits of the policy over any sequence of calls, and one answer for each replica state.
use qcbridge.Prelude.{
  ℕ, ◌+◌, ◌≤◌, ◌≡◌, refl, ◌≢◌, ◌⊎◌, Bool, true, false, Option, none, some, List, [], ◌∷◌, ◌++◌,
  string_eq, nat_eq, if◌then◌else◌, arith, Bool-cases, inl, inr,
}
use qcbridge.Liveness.{
  ResyncPolicy, Question, State, Verdict, nothing, fast, delta, is_full, decide, allow_full, reset,
  too_soon, served, answer_fast, answer_delta, answer_full, state_of, same_bootstraps,
}

pub data Call : Type 0 where
  decide_call : Question → Call
  allow_call : ℕ → Call
  reset_call : Option State → Call

unfoldable pub after : ResyncPolicy → Call → ResyncPolicy
after p (decide_call q) = (decide p q).0
after p (allow_call now) = (allow_full p now).0
after p (reset_call s) = reset p s

-- The times at which a call grants a bootstrap: a "full" verdict, or a permission.
unfoldable pub full_times : ResyncPolicy → Call → List ℕ
full_times p (decide_call q) = if is_full (decide p q).1 then q.now ∷ [] else []
full_times p (allow_call now) = if (allow_full p now).1 then now ∷ [] else []
full_times p (reset_call s) = []

-- The times at which a call grants a fast re-assert or a delta.
abbrev is_quick : Verdict → Bool
is_quick fast = true
is_quick delta = true
is_quick _ = false

unfoldable pub quick_times : ResyncPolicy → Call → List ℕ
quick_times p (decide_call q) = if is_quick (decide p q).1 then q.now ∷ [] else []
quick_times p _ = []

-- Each time is at least `w` after the one before it, the first after `last`.
abbrev pub Spaced : ℕ → Option ℕ → List ℕ → Type 0
Spaced w last [] = Unit
Spaced w none (t ∷ ts) = Spaced w (some t) ts
Spaced w (some last) (t ∷ ts) = (last + w ≤ t) × Spaced w (some t) ts

-- The last time of a list, or else `last`.
abbrev newest : Option ℕ → List ℕ → Option ℕ
newest last [] = last
newest last (t ∷ ts) = newest (some t) ts

Spaced-append :
    (w : ℕ) (last : Option ℕ) (ts us : List ℕ)
    → Spaced w last ts
    → Spaced w (newest last ts) us
    → Spaced w last (ts ++ us)
Spaced-append w last [] us h g = g
Spaced-append w none (t ∷ ts) us h g = Spaced-append w (some t) ts us h g
Spaced-append w (some l) (t ∷ ts) us h g = (h.0, Spaced-append w (some t) ts us h.1 g)

Spaced-step :
    (w w' : ℕ) (last mid : Option ℕ) (ts us : List ℕ)
    → w' ≡ w
    → mid ≡ newest last ts
    → Spaced w last ts
    → Spaced w' mid us
    → Spaced w last (ts ++ us)
Spaced-step w w' last mid ts us same latest h g =
    Spaced-append w last ts us h (rw (← same, ← latest) g)

-- What one call does to the clock of a rate limit: grants are spaced, and it keeps the last one.
record Keeps (w : ℕ) (last last' : Option ℕ) (times : List ℕ) : Type 0 where
  spaced : Spaced w last times
  latest : last' ≡ newest last times

-- Every call of `decide` answers nothing, or in one of the three ways.
decide_cases :
    (p : ResyncPolicy) (q : Question)
    → (decide p q ≡ (p, nothing))
      ⊎ (decide p q ≡ answer_fast p (state_of q.status) q.now)
      ⊎ (decide p q ≡ answer_delta p (state_of q.status) q.now)
      ⊎ (decide p q ≡ answer_full p (state_of q.status) q.now)
unfolding decide
decide_cases p q = ground arith

-- What an answer does to the two clocks.
abbrev full_of : ℕ → ResyncPolicy × Verdict → List ℕ
full_of now r = if is_full r.1 then now ∷ [] else []

abbrev quick_of : ℕ → ResyncPolicy × Verdict → List ℕ
quick_of now r = if is_quick r.1 then now ∷ [] else []

record Clocks (p : ResyncPolicy) (now : ℕ) (r : ResyncPolicy × Verdict) : Type 0 where
  fulls : Keeps p.min_interval p.last_sent r.0.last_sent (full_of now r)
  quicks : Keeps p.fast_interval p.last_fast r.0.last_fast (quick_of now r)
  intervals : (r.0.min_interval ≡ p.min_interval) × (r.0.fast_interval ≡ p.fast_interval)

Clocks-nothing : (p : ResyncPolicy) (now : ℕ) → Clocks p now (p, nothing)
Clocks-nothing p now = record {
  fulls = record { spaced = tt; latest = refl };
  quicks = record { spaced = tt; latest = refl };
  intervals = (refl, refl);
}

Spaced-one : (last : Option ℕ) (w now : ℕ) → too_soon last w now ≡ false → Spaced w last (now ∷ [])
unfolding too_soon
Spaced-one none w now h = tt
Spaced-one (some l) w now h = ground arith

Clocks-fast : (p : ResyncPolicy) (s : State) (now : ℕ) → Clocks p now (answer_fast p s now)
unfolding answer_fast
Clocks-fast p s now = elim (Bool-cases (too_soon p.last_fast p.fast_interval now)) [
  | inl early ↦ rw (early, answer_fast) (Clocks-nothing p now)
  | inr due ↦
      rw (due, answer_fast)
        (record {
          fulls = record { spaced = tt; latest = refl };
          quicks = record {
            spaced = Spaced-one p.last_fast p.fast_interval now due;
            latest = refl;
          };
          intervals = (refl, refl);
        })
]

Clocks-delta : (p : ResyncPolicy) (s : State) (now : ℕ) → Clocks p now (answer_delta p s now)
unfolding answer_delta
Clocks-delta p s now = elim (Bool-cases (too_soon p.last_fast p.fast_interval now)) [
  | inl early ↦ rw (early, answer_delta) (Clocks-nothing p now)
  | inr due ↦
      rw (due, answer_delta)
        (record {
          fulls = record { spaced = tt; latest = refl };
          quicks = record {
            spaced = Spaced-one p.last_fast p.fast_interval now due;
            latest = refl;
          };
          intervals = (refl, refl);
        })
]

Clocks-full : (p : ResyncPolicy) (s : State) (now : ℕ) → Clocks p now (answer_full p s now)
unfolding answer_full
Clocks-full p s now = elim (Bool-cases (too_soon p.last_sent p.min_interval now)) [
  | inl early ↦ rw (early, answer_full) (Clocks-nothing p now)
  | inr due ↦
      rw (due, answer_full)
        (record {
          fulls = record { spaced = Spaced-one p.last_sent p.min_interval now due; latest = refl };
          quicks = record { spaced = tt; latest = refl };
          intervals = (refl, refl);
        })
]

Clocks-decide : (p : ResyncPolicy) (q : Question) → Clocks p q.now (decide p q)
Clocks-decide p q = elim (decide_cases p q) [
  | inl e ↦ rw e (Clocks-nothing p q.now)
  | inr (inl e) ↦ rw e (Clocks-fast p (state_of q.status) q.now)
  | inr (inr (inl e)) ↦ rw e (Clocks-delta p (state_of q.status) q.now)
  | inr (inr (inr e)) ↦ rw e (Clocks-full p (state_of q.status) q.now)
]

allow-Keeps :
    (p : ResyncPolicy) (now : ℕ)
    → Keeps p.min_interval p.last_sent
        (allow_full p now).0.last_sent
        (if (allow_full p now).1 then now ∷ [] else [])
unfolding allow_full
allow-Keeps p now = elim (Bool-cases (too_soon p.last_sent p.min_interval now)) [
  | inl early ↦ rw (early, allow_full) (record { spaced = tt; latest = refl })
  | inr due ↦
      rw (due, allow_full)
        (record { spaced = Spaced-one p.last_sent p.min_interval now due; latest = refl })
]

after-full :
    (p : ResyncPolicy) (c : Call)
    → Keeps p.min_interval p.last_sent (after p c).last_sent (full_times p c)
unfolding after full_times allow_full reset
after-full p (decide_call q) = (Clocks-decide p q).fulls
after-full p (allow_call now) = allow-Keeps p now
after-full p (reset_call s) = record { spaced = tt; latest = refl }

last_fast-allow : (p : ResyncPolicy) (now : ℕ) → (allow_full p now).0.last_fast ≡ p.last_fast
unfolding allow_full
last_fast-allow p now = ground arith

after-quick :
    (p : ResyncPolicy) (c : Call)
    → Keeps p.fast_interval p.last_fast (after p c).last_fast (quick_times p c)
unfolding after quick_times reset
after-quick p (decide_call q) = (Clocks-decide p q).quicks
after-quick p (allow_call now) = record { spaced = tt; latest = last_fast-allow p now }
after-quick p (reset_call s) = record { spaced = tt; latest = refl }

after-intervals :
    (p : ResyncPolicy) (c : Call)
    → ((after p c).min_interval ≡ p.min_interval) × ((after p c).fast_interval ≡ p.fast_interval)
unfolding after allow_full reset
after-intervals p (decide_call q) = (Clocks-decide p q).intervals
after-intervals p (allow_call now) = (ground arith, ground arith)
after-intervals p (reset_call s) = (refl, refl)

-- The grants of a sequence of calls, oldest first.
unfoldable pub all_full_times : ResyncPolicy → List Call → List ℕ
unfolding after full_times
all_full_times p [] = []
all_full_times p (c ∷ cs) = full_times p c ++ all_full_times (after p c) cs

unfoldable pub all_quick_times : ResyncPolicy → List Call → List ℕ
unfolding after quick_times
all_quick_times p [] = []
all_quick_times p (c ∷ cs) = quick_times p c ++ all_quick_times (after p c) cs

-- Over any sequence of calls, resets included, bootstraps are granted at least `min_interval`
-- apart, and fast re-asserts and deltas together at least `fast_interval` apart, each counted
-- from the grant that the policy remembers at the start.
pub grants-Spaced :
    (p : ResyncPolicy) (cs : List Call)
    → Spaced p.min_interval p.last_sent (all_full_times p cs)
      × Spaced p.fast_interval p.last_fast (all_quick_times p cs)
unfolding all_full_times all_quick_times
grants-Spaced p [] = (tt, tt)
grants-Spaced p (c ∷ cs) =
    let k = after-full p c in
    let q = after-quick p c in
    let same = after-intervals p c in
    let rest = grants-Spaced (after p c) cs in
    (
      Spaced-step p.min_interval _ p.last_sent _ (full_times p c) _ same.0 k.latest k.spaced rest.0,
      Spaced-step p.fast_interval _ p.last_fast _ (quick_times p c) _ same.1 q.latest q.spaced
          rest.1,
    )

-- A question about the replica state that the policy answered last.
served_refl : (s : State) → served s (some s) ≡ true
unfolding served same_bootstraps
served_refl (none, r) = ground arith
served_refl (some b, r) = ground arith

answer-served :
    (p : ResyncPolicy) (q : Question)
    → (decide p q).1 ≢ nothing
    → (decide p q).0.served_for ≡ some (state_of q.status)
unfolding decide answer_fast answer_delta answer_full
answer-served p q h = ground arith

decide-served :
    (p : ResyncPolicy) (r : Question)
    → served (state_of r.status) p.served_for ≡ true
    → decide p r ≡ (p, nothing)
unfolding decide
decide-served p r h = ground arith

-- After any answer but "none", the same replica state (`bootstraps`, `resyncs`) is answered
-- "none", whenever and with whatever lanes and capabilities it is asked about again, and the
-- policy does not change.
pub decide_once :
    (p : ResyncPolicy) (q r : Question)
    → (decide p q).1 ≢ nothing
    → state_of r.status ≡ state_of q.status
    → decide (decide p q).0 r ≡ ((decide p q).0, nothing)
decide_once p q r h same =
    decide-served (decide p q).0 r
      (rw (answer-served p q h, same) (served_refl (state_of q.status)))
