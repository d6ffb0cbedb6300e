-- ===== src/Tests.antt =====
-- Concrete inputs at which the results on qcbridge/ring0 and qcbridge/ring1 apply.
mod Lanes
mod State
mod Repair
mod Agent
mod Paths
mod Queues
mod Host
mod Replica
mod Control
