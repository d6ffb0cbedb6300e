-- ===== src/Tests/Agent.antt =====
-- Concrete inputs for qcbridge/ring1/transport_agent.py, qcbridge/ring1/classifier.py and
-- qcbridge/ring0/frame_ring.py.
use qcbridge.Prelude.{
  ℕ, ◌≤◌, ◌<◌, ◌≡◌, refl, true, false, Option, none, some, List, [], ◌∷◌, ◌++◌, String, string_eq,
  nat_eq, length, map, take, arith, if◌then◌else◌, inl, All,
}
use qcbridge.Dict
use qcbridge.Dict.{keys}
use qcbridge.KeySet.{has, Distinct}
use qcbridge.Blob.{Bytes}
use qcbridge.AgentLink.{
  Link, take_batch, second, read_loop, concat, cold_parts, peer, pack_cold, unpack_cold,
}
use qcbridge.AgentLink.Roundtrip
use qcbridge.AgentLink.Roundtrip.{
  stream_of, arrived, Fits, read_loop-stream_of, unpack_cold-pack_cold,
}
use qcbridge.AgentLink.Conflate
use qcbridge.AgentLink.Conflate.{sent_frames, last_hot, take_batch_lem}
use qcbridge.AgentHost
use qcbridge.AgentHost.{init, attached}
use qcbridge.AgentHost.Credits.{
  Call, after_all, request_call, poll_call, cold_call, fast_call, cold_ack_call, reply_call,
  event_call,
}
use qcbridge.AgentHost.Replies.{IsFresh, returned, returned_once}
use qcbridge.Debouncer.{Debouncer, ready, is_due, ready_lem}
use qcbridge.RingLayout.{
  layout_for, next_slot, at_slot, unpack_latest, fits, bytes_per_row, capacity_for, or_height_cap,
  round_up,
}
use qcbridge.FrameRing.{Ring, Block, publish, whole}
use qcbridge.FrameRing.Seqlock.{
  readable, lets_in, store_all, publish-readable, publish_spares, publish_lem,
}

abbrev two_frames : List Roundtrip.Sent
two_frames =
    record { kind = 3; parts = (0 ∷ []) ∷ (7 ∷ 8 ∷ []) ∷ [] }
    ∷ record { kind = 16; parts = [] }
    ∷ []

two_frames_fit : All Fits two_frames
unfolding concat
two_frames_fit = (omega arith, (omega arith, tt))

read_loop-stream_of_example :
    read_loop (length (stream_of two_frames)) (stream_of two_frames) ≡ map arrived two_frames
read_loop-stream_of_example = read_loop-stream_of two_frames two_frames_fit

abbrev encode : ℕ → Bytes
encode n = n ∷ n ∷ []

abbrev decode : Bytes → Option ℕ
decode (n ∷ _) = some n
decode [] = none

unpack_cold-pack_cold_example :
    (concat (cold_parts encode decode 5 (1 ∷ [])) ≡ peer ++ pack_cold encode decode 5 (1 ∷ []))
    × (unpack_cold encode decode (pack_cold encode decode 5 (1 ∷ [])) ≡ some (5, 1 ∷ []))
unpack_cold-pack_cold_example = unpack_cold-pack_cold encode decode 5 (1 ∷ []) (omega arith) refl

abbrev queued : List (Conflate.Call String ℕ)
queued = Conflate.hot_call "cam" 1 ∷ Conflate.send_call 2 ∷ Conflate.hot_call "cam" 3 ∷ []

abbrev idle_link : Link String ℕ
idle_link = record { frames = []; hot = [] }

take_batch_lem_example :
    ((take_batch (Conflate.after_all idle_link queued)).1
      ≡ (idle_link.frames ++ sent_frames queued)
        ++ map second (Conflate.after_all idle_link queued).hot)
    × Distinct (keys (Conflate.after_all idle_link queued).hot)
    × (Dict.get (Conflate.after_all idle_link queued).hot "cam"
        ≡ last_hot "cam" (Dict.get idle_link.hot "cam") queued)
take_batch_lem_example = take_batch_lem idle_link queued "cam" tt

abbrev glue : String → String → String
glue a b = a

abbrev session : List (Call ℕ)
session =
    event_call (attached true (some "bytes") ("fast" ∷ []))
    ∷ request_call 4
    ∷ cold_call 0 [] 4000
    ∷ reply_call (record { is_pong = false; req = some 1; status = none; content = 9 }) 10
    ∷ poll_call 1
    ∷ cold_ack_call 4000
    ∷ poll_call 1
    ∷ []

-- A host whose agent counts in messages and has no fast lane.
abbrev attached_host : AgentHost.Host ℕ
attached_host = record init { link_up = true }

abbrev frames : List (Call ℕ)
frames = cold_call 0 [] 4000 ∷ fast_call 0 [] 20 ∷ cold_ack_call 1 ∷ poll_call 1 ∷ []

init-IsFresh : IsFresh (init {A = ℕ})
unfolding Dict.get
init-IsFresh = record { given = λ req le. refl }

returned_once_example : length (returned glue 1 init session) ≤ 1
returned_once_example = returned_once glue 1 init session init-IsFresh

abbrev debouncer : Debouncer
debouncer = record { window = 80; touched = ("lamp", 10) ∷ ("cube", 60) ∷ [] }

Distinct-touched : Distinct (keys debouncer.touched)
unfolding has
Distinct-touched = (refl, (refl, tt))

ready_lem_example :
    (has (ready debouncer 100).1 "lamp"
      ≡ is_due debouncer.window 100 (Dict.get debouncer.touched "lamp"))
    × (Dict.get (ready debouncer 100).0.touched "lamp" ≡ (
        if is_due debouncer.window 100 (Dict.get debouncer.touched "lamp")
        then none
        else Dict.get debouncer.touched "lamp"))
ready_lem_example = ready_lem debouncer 100 "lamp" Distinct-touched

abbrev ring : Ring
ring = record {
  layout = layout_for 64 (some 48) 3;
  seq = 5;
  last_slot = at_slot 1;
  published = 5;
  retired = false;
}

abbrev block : Block ℕ
block = record { slots = λ i. record { seqlock = 2; content = whole i }; latest = 1281 }

publish-readable_example :
    readable ((store_all block (take 2 (publish ring block 3 64 48 77).1)).slots 0) ≡ true
publish-readable_example = publish-readable ring block 3 64 48 77 2 0 refl

slots_three : (layout_for 64 (some 48) 3).slot_count ≡ 3
unfolding layout_for
slots_three = refl

three_slots : 3 ≤ ring.layout.slot_count
three_slots = omega (arith, slots_three)

one_in_range : 1 < ring.layout.slot_count
one_in_range = omega (arith, slots_three)

publish_spares_example :
    let stores = (publish ring block 3 64 48 77).1 in
    ((store_all block (take 4 stores)).slots 2 ≡ block.slots 2)
    × ((j : ℕ) → j ≤ 4 → (store_all block (take j stores)).latest ≡ block.latest)
publish_spares_example =
    publish_spares ring block 3 64 48 77 4 1 2 refl three_slots one_in_range (inl refl)

taken_example : (publish ring block 3 64 48 77).2 ≡ true
unfolding publish layout_for fits capacity_for bytes_per_row round_up or_height_cap
taken_example = refl

publish_lem_example :
    let after = store_all block (publish ring block 3 64 48 77).1 in
    let slot = (unpack_latest after.latest).1 in
    ((after.slots slot).content ≡ whole 77)
    × (lets_in (after.slots slot).seqlock ≡ true)
    × (slot ≡ next_slot ring.last_slot 3 ring.layout.slot_count)
publish_lem_example =
    publish_lem ring block 3 64 48 77 1 refl three_slots (omega (arith, slots_three)) one_in_range
      taken_example
