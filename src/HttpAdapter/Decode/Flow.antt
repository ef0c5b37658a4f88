-- ===== src/HttpAdapter/Decode/Flow.antt =====
-- The throttler, the sender and the channels of a snapshot response (`decodeWireSnapshot` and
-- `decodeChannelSnapshot` of frontend/src/adapters/HttpAdapter.ts).
use Prim.Native.String.{String}
use ingestion_lab_loadgen.Loadgen.{LoadgenConfigSnapshot, RunState}
use ingestion_lab_loadgen.Prelude.{Bool, List, Option, [], includes, ℕ, ◌&&◌, ◌∷◌}
use ingestion_lab_loadgen.HttpAdapter.Decode.Reader.{is_stopped, workers_pass}
use ingestion_lab_loadgen.HttpAdapter.Wire.{WireChannelSnapshot, WireSender, WireThrottler}
use ingestion_lab_loadgen.HttpAdapter.Config.{includes_boolean}
use ingestion_lab_loadgen.HttpAdapter.Json.{
  Value, accept, exact_object, in_range, property, wire_boolean, wire_integer, wire_number, ◌>>=◌,
}

abbrev pub throttler_keys : List String
throttler_keys = "admittedTps" ∷ "installed" ∷ "requestedTps" ∷ []

abbrev pub throttler_passes : LoadgenConfigSnapshot → WireThrottler → Bool
throttler_passes config t =
    in_range t.requested_tps config.throttler_requested_tps
    && includes_boolean config.throttler_installed.allowed t.installed

unfoldable pub decode_throttler : LoadgenConfigSnapshot → Value → Option WireThrottler
decode_throttler config value = do
  members ← exact_object throttler_keys value
  requested ← wire_integer (property members "requestedTps")
  admitted ← wire_number (property members "admittedTps")
  installed ← wire_boolean (property members "installed")
  accept (throttler_passes config)
      (record { requested_tps = requested; admitted_tps = admitted; installed = installed })

abbrev pub sender_keys : List String
sender_keys =
    "backoffWorkers" ∷ "drainingBackoffWorkers" ∷ "drainingIdleWorkers" ∷ "drainingInFlightWorkers"
    ∷ "drainingWorkers" ∷ "idleWorkers" ∷ "inFlightWorkers" ∷ "liveWorkers" ∷ "workers" ∷ []

abbrev pub sender_values_pass : LoadgenConfigSnapshot → RunState → WireSender → Bool
sender_values_pass config run s =
    in_range s.workers config.sender_workers
    && workers_pass (is_stopped run) s.idle_workers s.in_flight_workers s.backoff_workers
        s.draining_idle_workers s.draining_in_flight_workers s.draining_backoff_workers
        s.live_workers s.draining_workers

unfoldable pub decode_sender_values : LoadgenConfigSnapshot → RunState → Value → Option WireSender
decode_sender_values config run value = do
  members ← exact_object sender_keys value
  workers ← wire_integer (property members "workers")
  live ← wire_integer (property members "liveWorkers")
  idle_count ← wire_integer (property members "idleWorkers")
  in_flight_count ← wire_integer (property members "inFlightWorkers")
  backoff ← wire_integer (property members "backoffWorkers")
  draining ← wire_integer (property members "drainingWorkers")
  draining_idle ← wire_integer (property members "drainingIdleWorkers")
  draining_in_flight ← wire_integer (property members "drainingInFlightWorkers")
  draining_backoff ← wire_integer (property members "drainingBackoffWorkers")
  accept (sender_values_pass config run) (record {
    workers = workers;
    live_workers = live;
    idle_workers = idle_count;
    in_flight_workers = in_flight_count;
    backoff_workers = backoff;
    draining_workers = draining;
    draining_idle_workers = draining_idle;
    draining_in_flight_workers = draining_in_flight;
    draining_backoff_workers = draining_backoff;
  })

abbrev pub channel_keys : List String
channel_keys =
    "blockedMs" ∷ "blockedSenders" ∷ "bufferedTransactions" ∷ "capacity" ∷ "depthBatches"
    ∷ "inputBatchesPerSecond" ∷ "inputTransactionsPerSecond" ∷ "oldestBlockedSenderMs"
    ∷ "outputBatchesPerSecond" ∷ "outputTransactionsPerSecond" ∷ "receivedBatchesTotal"
    ∷ "receivedTransactionsTotal" ∷ "sentBatchesTotal" ∷ "sentTransactionsTotal" ∷ []

unfoldable pub decode_channel_snapshot : List ℕ → Value → Option WireChannelSnapshot
decode_channel_snapshot allowed_capacity value = do
  members ← exact_object channel_keys value
  capacity ← wire_integer (property members "capacity")
  depth ← wire_integer (property members "depthBatches")
  buffered ← wire_integer (property members "bufferedTransactions")
  blocked_senders ← wire_integer (property members "blockedSenders")
  oldest ← wire_integer (property members "oldestBlockedSenderMs")
  blocked_ms ← wire_integer (property members "blockedMs")
  sent_batches ← wire_integer (property members "sentBatchesTotal")
  sent_transactions ← wire_integer (property members "sentTransactionsTotal")
  received_batches ← wire_integer (property members "receivedBatchesTotal")
  received_transactions ← wire_integer (property members "receivedTransactionsTotal")
  input_batches ← wire_number (property members "inputBatchesPerSecond")
  input_transactions ← wire_number (property members "inputTransactionsPerSecond")
  output_batches ← wire_number (property members "outputBatchesPerSecond")
  output_transactions ← wire_number (property members "outputTransactionsPerSecond")
  accept (λ c. includes allowed_capacity c.capacity)
      (record {
        capacity = capacity;
        depth_batches = depth;
        buffered_transactions = buffered;
        blocked_senders = blocked_senders;
        oldest_blocked_sender_ms = oldest;
        blocked_ms = blocked_ms;
        sent_batches_total = sent_batches;
        sent_transactions_total = sent_transactions;
        received_batches_total = received_batches;
        received_transactions_total = received_transactions;
        input_batches_per_second = input_batches;
        input_transactions_per_second = input_transactions;
        output_batches_per_second = output_batches;
        output_transactions_per_second = output_transactions;
      })
