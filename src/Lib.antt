-- ===== src/Lib.antt =====
-- QCBridge mirrors a Blender session (the host) on a second machine (the replica). The host marks
-- edited datablocks dirty, drains the marks on a tick, and sends property deltas, whole datablocks
-- cut into chunks, and tombstones over two ordered lanes, cold and fast. The replica merges the
-- lanes, reassembles the chunks, applies them, and reports in its pong what it has applied and
-- where a lane lost a message; the host then re-asserts a window of the fast lane, plans a repair
-- from the two inventories, or sends everything. Rendered frames leave the replica through a block
-- of shared memory. Paths below start at the repository's root.
--
-- Parts, and the files that model them:
-- - qcbridge/ring1/protocol.py: `SeqTracker` in Seq.antt (observe, clear_gap), and in Blob.antt
--   `chunk_blob` (chunk, chunks_from, chunk_blob) and `Reassembler` (feed, discard_blob for `drop`).
-- - the same file: `HotState`, `hot_core`, `unpack_hot` and `check_hello` in HotState.antt.
-- - qcbridge/ring1/merge.py: `LaneMerger` in Merge.antt, one function for each method; it holds two
--   trackers of Seq.antt.
-- - qcbridge/ring1/dirtyset.py: `DirtySet` in DirtySet.antt, one function for each method.
-- - qcbridge/ring1/registry.py: `IdentityRegistry` in Registry.antt.
-- - qcbridge/ring1/fastlog.py: `FastLog` in FastLog.antt; log_sent is the method `record`.
-- - qcbridge/ring1/resync.py: `DeltaPlan` and `plan_delta` in Resync.antt, with the order of
--   strings of `sorted` in Sorting.antt.
-- - qcbridge/ring1/liveness.py: `replica_restarted` and `ResyncPolicy` in Liveness.antt.
-- - qcbridge/ring1/shadow.py: `ShadowStore` in Shadow.antt, `TRACKED` in Shadow/Tracked.antt.
-- - qcbridge/ring1/ring_layout.py: RingLayout.antt.
-- - qcbridge/ring1/visview.py: VisView.antt.
-- - qcbridge/ring1/probe.py: Probe.antt.
-- - qcbridge/ring1/stream_params.py: `from_prefs` in Stream.antt.
-- - qcbridge/ring1/classifier.py: Debouncer.antt; discard_uuid is the method `drop`.
-- - qcbridge/ring1/pathmap.py: PathMap.antt, `translate` and what uses it, over texts as code points;
--   `str.lower`, `str.isalpha` and the home folder are parameters.
-- - qcbridge/ring1/transport_agent.py: the framing and the queue of `_FrameLink` and `_AgentLink` in
--   AgentLink.antt, and `HostTransportAgent` in AgentHost.antt (one function for each method;
--   cold_ack and fast_ack are branches of `_on_frame`, io_round one round of `_io_loop`).
-- - the class `ReplicaTransportAgent` of the same file in AgentReplica.antt: on_frame is `_on_frame`.
-- - qcbridge/ring0/frame_ring.py: `publish` and `retire` of `FrameRing` in FrameRing.antt, over
--   RingLayout.antt; a reader may look between any two stores.
-- - qcbridge/ring0/host_handlers.py: `HostSync`. Lanes.antt has its two numbered lanes, outboxes and
--   ordering marks, Lanes/Step.antt the protocol they follow as a step relation; HostSync.antt the
--   deltas and blobs of one datablock (send_t1, flush_t1, flush_t2 for the methods with a leading
--   underscore), HostSync/Boot.antt bootstraps and libraries, HostSync/Repair.antt the repairs, and
--   HostSync/Tick.antt the tick, the sweeps and the depsgraph handler.
-- - qcbridge/ring0/session.py: the host's handshake, the transitions of its peer and its watcher in
--   Session.antt; they hold a host of HostSync.antt and the policy of Liveness.antt.
-- - qcbridge/ring0/replica_apply.py: the dispatch of a message in ReplicaApply.antt, and the loop over
--   the inboxes, the batch of blobs, the manifests and a new session in ReplicaApply/Batches.antt;
--   they hold a merger of Merge.antt and the reassembler of Blob.antt.
-- Prelude.antt holds shared names and lemmas, Dict.antt a Python `dict` as an association list in
-- insertion order, KeySet.antt a `set` as a list without repetitions. The modules below a part's
-- file carry its lemmas, and Tests.antt the results at concrete inputs.
--
-- How it is modelled. A method that changes its object is a function from the old state to the new
-- one, beside what the method returns. Numbers are natural numbers; the bits of a machine word are
-- written as arithmetic modulo a power of two. Times are whole ticks of one clock. Uuids, digests
-- and kinds are strings; a message's payload and the header entries that no modelled code reads are
-- a type parameter. The loop of `fast_done` runs on
-- fuel: as many rounds as the set has members, since each round takes one out. The loop that reads
-- frames runs on fuel too: as many rounds as there are bytes, since a frame has five or more.
--
-- The host's flush stands between Blender and the transport. What Blender, the serializer, hashing
-- and the disk answer at a call is a record `World` that the call is given, any other at the next;
-- its one law is that a pointer's target is no shape key. A datablock that died raises a
-- `ReferenceError`, as a value; any other exception of Blender, which would end a tick and lose the
-- entries it had drained, is left out. Whether the transport accepts a message is
-- read off a list of answers, and a call beyond its end is refused. On the replica the deadline of a
-- loop is a number of rounds, and the time budget of a batch a number of blobs that begin within it.
--
-- Not modelled: the text of JSON, struct formats and hashes, sockets, threads and shared memory,
-- floating-point colour arithmetic, the reading and writing of Blender's data, the panels, and of
-- qcbridge/ring0 all but the host's flush and session control, the replica's apply loop and the frame
-- ring's writer.
pub mod Lanes
pub mod Session
pub mod ReplicaApply
pub mod HostSync
pub mod Prelude
pub mod Dict
pub mod KeySet
pub mod Seq
pub mod Merge
pub mod DirtySet
pub mod Registry
pub mod FastLog
pub mod Sorting
pub mod Resync
pub mod Liveness
pub mod Shadow
pub mod RingLayout
pub mod Blob
pub mod VisView
pub mod Probe
pub mod Tests
pub mod AgentLink
pub mod AgentHost
pub mod Debouncer
pub mod FrameRing
pub mod PathMap
pub mod AgentReplica
pub mod HotState
pub mod Stream
