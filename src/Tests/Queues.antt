-- ===== src/Tests/Queues.antt =====
-- Concrete inputs for `ReplicaTransportAgent` of qcbridge/ring1/transport_agent.py.
use qcbridge.Prelude.{ℕ, ◌≡◌, Option, none, some, List, [], ◌∷◌, ◌++◌, String}
use qcbridge.Blob.{Bytes}
use qcbridge.AgentReplica.{Control, Event, init, ping, other_event}
use qcbridge.AgentReplica.Queues.{
  Step, frame_step, cold_step, fast_step, after_all, brought_all, handed_out_all, cold_in_order,
}

abbrev encode : ℕ → Bytes
encode n = n ∷ []

abbrev decode : Bytes → Option ℕ
decode (n ∷ _) = some n
decode [] = none

abbrev handler : ℕ → Option ℕ
handler n = some n

abbrev read_control : Bytes → Option (Control ℕ)
read_control body = some ping

abbrev read_event : Bytes → Event
read_event body = other_event

abbrev glue : String → String → String
glue a b = a

-- A cold frame with the header 9 and the payload 4, a ping, and two polls.
abbrev steps : List Step
steps =
    frame_step 3 (0 ∷ 0 ∷ 0 ∷ 0 ∷ 1 ∷ 9 ∷ 4 ∷ []) 5
    ∷ frame_step 1 (0 ∷ []) 6
    ∷ cold_step 2
    ∷ fast_step 2
    ∷ []

cold_in_order_example :
    handed_out_all handler none encode decode read_control read_event glue init steps
      ++ (after_all handler none encode decode read_control read_event glue init steps).cold_q
    ≡ [] ++ brought_all handler none encode decode read_control read_event glue steps
cold_in_order_example =
    cold_in_order handler none encode decode read_control read_event glue init steps
