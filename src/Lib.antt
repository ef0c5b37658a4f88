-- ===== src/Lib.antt =====
-- The ingestion laboratory's load generator simulated in the browser, and the adapter that drives it.
--
-- The program. A reader makes batches and sends them into a bounded channel; a throttler with a token
-- bucket lets them through to a second channel; a pool of sender workers takes them from there, makes
-- HTTP attempts of configured latency and error rate, and retries or gives up. All of it moves in
-- steps of 10 ms. The adapter carries user commands to the simulation, advances it by the clock and
-- publishes snapshots to its listeners. The adapter owns the simulation, which owns its two channels
-- and its workers; they interact by calls only. A second adapter has the same face, and a service behind
-- HTTP in place of the simulation.
--
-- The files. Types, State, Channel, Retry, Completion, Start, Workers, Due, Delivery, Production, Step
-- and Telemetry, below Simulation, model frontend/src/model/simulation.ts: `StatefulChannel` is
-- Simulation/Channel, whose methods have their names in the source; the fields of `FixedStepSimulation`
-- are the record of Simulation/State; `completeAttempt` and what it calls is Completion, `startAttempt`
-- Start, `nextIdleWorker` and the scaling of the pool Workers, `completeDueAttempts`, `startDueRetries`
-- and `refillThrottlerTokens` Due, `drainSenderChannel` and `flushThrottledBatch` Delivery,
-- `receiveReaderChannel` and `produceReaderBatches` Production, the public methods Step, and
-- `telemetry` Telemetry. Simulation/Run makes any calls in any order. Loadgen has the types of
-- frontend/src/model/loadgen.ts. SimulationAdapter models frontend/src/adapters/SimulationAdapter.ts:
-- the ranges and `normalizeNumericValue` are Ranges, `freezeSnapshot` is Snapshot, the class is
-- Machine (`updateConfig` is `set_config`, the cases of `dispatch` are `perform`). HttpAdapter models
-- frontend/src/adapters/HttpAdapter.ts, which polls a service and sends it commands: Json has the values
-- that `response.json()` gives and the checks on them, Wire the types of a response, Config and Decode
-- `decodeConfig` and `decodeWireSnapshot`, View `createSnapshot`, Requests the commands and when they may
-- be sent, Responses `decodeResponse`, Machine the class, whose awaits end a method and whose answers are
-- the events of Machine/Events, and Machine/Steps its transitions. Encode and Valid are the measure of
-- the decoding. Hooks/PauseFrozen is `PauseFrozenObservedDeriver` of
-- frontend/src/hooks/useLoadgenSnapshot.ts, Hooks/SnapshotHook the `getSnapshot` there, which composes it
-- with the class of ChannelFlow/Deriver, and Hooks/DesiredControl is
-- frontend/src/hooks/useDesiredControl.ts. ChannelFlow models frontend/src/model/channelFlowState.ts:
-- Pressure the pressures, as fractions, and their movement in time, and Deriver the class, whose
-- snapshots are known by a reference and whose times are whole microseconds. The files below
-- these hold proofs and are named for what they prove; Prelude holds what all share.
--
-- State. A method that mutates the object returns it. Within a step the simulation travels with the
-- step's activity, a worker with both. What the code throws, a property of `undefined` and the fuel of
-- a loop that runs out are the faults of Prelude/Results.
--
-- Numbers are whole: transactions, milliseconds and percentages are so in the adapter's configuration.
-- The throttler's tokens, which a step refills by a hundredth of the requested rate, are counted in
-- hundredths, and the jitter factors in tenths, where the source has doubles. A number that a command
-- carries is a fraction, and the arithmetic on it exact.
--
-- Loops. A `for` over the workers is a recursion on the list. `drainSenderChannel` has one more round
-- of fuel than the channel has batches, as each round takes one out; `receiveReaderChannel` has the
-- depth as its bound in the source; `produceReaderBatches` has one more round than the credit, which
-- each round lowers by a batch that is not empty. The theorems on a step include that this suffices.
--
-- Not modelled. `attemptOutcomeSource` is a parameter. `Date.now` is an argument. Listeners are
-- numbers, and do not call the adapter while they are called. The batch's identity is a text made of
-- its number. `fetch` and `response.json()` are parameters: the events carry what they give, and any may
-- come at any time or not at all. Errors that are thrown and caught without being read carry no
-- message. A component is rendered after each event. The colours of
-- frontend/src/model/channelFlowState.ts, the geometry and the React components are not modelled, nor are
-- the services in Go.
pub mod Prelude
pub mod Simulation
pub mod Loadgen
pub mod SimulationAdapter
pub mod HttpAdapter
pub mod Hooks
pub mod ChannelFlow
