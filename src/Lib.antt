-- ===== src/Lib.antt =====
-- A model of the executable contracts of aigent.place, a shared 3D world of owner-operated aigents.
--
-- The repository states each contract as prose with fixtures and as a reference evaluator in
-- JavaScript, which runs a list of steps on a state and gives a trace; server, viewer and owner SDK
-- are held to the same fixtures. The evaluators are what is modelled here.
--
-- Protocol and the modules below it: scripts/protocol-contract.mjs, one connection between a client
-- and the world server. State.State is the object that normalizedState builds; Output.Output is an
-- output of the trace. Handshake.handshake (with Compatibility for the registry of protocol majors,
-- Calendar for sixCalendarMonthsAfter and Features for selectFeatures), Command.command,
-- Envelope.envelope, Queue.enqueue_state, observe_queue and enqueue_event,
-- Events.acknowledge_event, receive_event and resume_events, and Snapshot.deliver_delta,
-- expire_baseline and snapshot_resync are the handlers of the switch in transition;
-- Transition.transition is the guard and the switch, and Transition.run the loop of
-- evaluateScenario.
--
-- Workload and the modules below it: scripts/workload-contract.mjs, how the server degrades under
-- load and when it is at capacity. Policy.policy_from_level is policyFromLevel (policy_at for a
-- level that it accepts), Windows.classify_windows is classifyWindows, Aoi.truncate_aoi is
-- truncateAoi, Cadence has effectivePerceptHz, classifyCadenceDelivery and classifyCapacityTarget,
-- State.State is the object that normalizedState builds and Trace.Event an event of the trace,
-- Boundary.evaluate_boundary is evaluateBoundary and Boundary.observe_tick the body of the loops
-- over ticks, Steps.evaluate_step is the switch of evaluateScenario and Steps.run its loop. The
-- queue limit and the number of observations that disconnect are those of Protocol.Queue, as in the
-- code.
--
-- World and the modules below it: scripts/world-contract.mjs, of which Rounding has roundTiesToEven
-- and quantizeMeters, and Primitives has primitiveHalfExtents, with finiteInteger as
-- Primitives.sized. A coordinate comes as the fraction that decimalFraction reads from its text,
-- and extents are kept in half millimetres.
--
-- Ruleset and the modules below it: scripts/ruleset-contract.mjs, how the parameters of the world
-- are changed by votes. Catalog.catalog is PARAMETER_CATALOG, Constitution.validate_candidate is
-- validateCandidate with validateCrossFields and envelopeCost beside it, State.State is the object
-- that normalizedState builds and Trace.Event an event of the trace, Voting has the steps propose,
-- propose_track_b, vote and close_vote, Soak.observe_soak the step of that name with soakHealthy,
-- and Steps.evaluate_step is the switch of evaluateScenario and Steps.run its loop.
--
-- Replay and the modules below it: scripts/replay-contract.mjs, of which the event streams of the
-- replay log and the deterministic draws are modelled. U64 has the texts of 64-bit cursors (isU64,
-- u64Value, u64String, incrementU64), Stream.Log is the part of the state that createState builds
-- in which the streams live, Stream.stream, emit and operational_hour are stream, the part of
-- commit that emits an event and operationalHour, Cursor.acknowledge and Cursor.resume the
-- functions of these names, Eviction.evict_events is evictEvents and Validation.validate_stream is
-- validateStream; Steps.evaluate_step has their cases of evaluateScenario. Bytes has u16, u32, u64,
-- i64 and utf8, and Draw has encodeRngInput and deterministicDraw, with HMAC-SHA-256 as a
-- parameter; Seed reads the seed of the world. Texts of a draw come as the bytes that Buffer.from
-- gives for them.
--
-- Base: the shared names, JavaScript values (Value), integers (Int), dictionaries (Map), array
-- methods (Lists), the stable sort (Sort) and thrown errors (Outcome). Double: the rounding of
-- doubles, for distances and costs.
--
-- How the code is read. A handler that changes the cloned state returns the new state with its
-- outputs; a thrown error is Outcome.thrown, and it leaves the caller's state as it was, since
-- transition works on a clone. A field that the code checks before use is a Value; a field that it
-- uses unchecked has the type that the fixtures give it. Numbers are integers. Where the code
-- computes with numbers that a double does not hold exactly, the result is rounded as there.
-- Objects used as dictionaries are association lists in insertion order, without the members that
-- an object inherits: aigents and idempotency keys named like one, as "constructor", are outside
-- the model. The UTC calendar is modelled for timestamps from 1970 on. In the workload contract,
-- the integers of the initial state are not negative, rates in Hz are whole, entity ids are the
-- numbers that their decimal texts name, coordinates are integers with their distances in doubles,
-- and a quotient that the code compares is kept as its two numbers. In the ruleset contract, a
-- parameter and a share of votes are exact fractions, compared as such, where the code has doubles,
-- and costs are doubles; a path that an object inherits from its prototype is found in the catalog,
-- as in the code. In the replay log, a cursor is the number that its text names, and so is a stream
-- id. Loops are structural recursion, but for the two of evictEvents that drop the oldest event
-- while a cap is exceeded, which get as much fuel as there are events, each round dropping one, for
-- the printing of a number, which gets more fuel than the number has digits, for the scaling of a
-- double, which gets more than the digits that a double can have, and for the blocks of a draw, a
-- loop that ends only with probability one: a draw is none where the fuel is used up.
--
-- Not modelled: canonicalize, validateFixture and loadFixture of the evaluators, which prepare
-- fixture files; inspect of the protocol contract, which copies parts of the final state; of the
-- world contract, shapes with their rotations, placement and movement; of the replay log,
-- admission, commit but for the emission of events, delivery and recovery of generations, the
-- outcome codec and CRC-32C; the owner SDK, the viewer, the task board and the server in Rust.
pub mod Base
pub mod Double
pub mod Protocol
pub mod Workload
pub mod World
pub mod Ruleset
pub mod Replay
