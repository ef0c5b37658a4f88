-- ===== src/HttpAdapter/View/Channels.antt =====
-- The channels of a snapshot (frontend/src/adapters/HttpAdapter.ts).
use ingestion_lab_loadgen.Prelude.{Option, none, some}
use ingestion_lab_loadgen.HttpAdapter.View.Controls.{
  reader_channel_capacity_control, unavailable_control,
}
use ingestion_lab_loadgen.HttpAdapter.Wire.{WireChannelSnapshot, WireSnapshot}
use ingestion_lab_loadgen.Simulation.Telemetry.{unknown}
use ingestion_lab_loadgen.Loadgen.{
  ActorId, AllowedControlConfigSnapshot, ChannelId, ChannelTelemetrySnapshot, ConnectionState,
  RunState, reader, reader_to_throttler, sender, throttler, throttler_to_sender, whole,
}

abbrev pub neutral_channel : ChannelId → ActorId → ActorId → ChannelTelemetrySnapshot
neutral_channel id from to = record {
  id = id;
  from = from;
  to = to;
  capacity = unavailable_control "batches";
  sent_batches_total = 0;
  sent_transactions_total = 0;
  received_batches_total = 0;
  received_transactions_total = 0;
  depth_batches = none;
  buffered_transactions = none;
  handoff_batches = 0;
  handoff_batches_total = 0;
  blocked_senders = 0;
  oldest_blocked_sender_ms = 0;
  input_batches_per_second = whole 0;
  output_batches_per_second = whole 0;
  input_transactions_per_second = whole 0;
  output_transactions_per_second = whole 0;
  input_tps = none;
  output_tps = none;
  throughput_tps = none;
  blocked_ms = none;
  trend = unknown;
}

-- A neutral channel with what the response says of it.
abbrev pub filled_channel :
    ChannelTelemetrySnapshot
    → WireChannelSnapshot
    → AllowedControlConfigSnapshot
    → ConnectionState
    → RunState
    → ChannelTelemetrySnapshot
filled_channel base wire config link run_state = record {
  id = base.id;
  from = base.from;
  to = base.to;
  capacity = reader_channel_capacity_control wire.capacity config link run_state;
  sent_batches_total = wire.sent_batches_total;
  sent_transactions_total = wire.sent_transactions_total;
  received_batches_total = wire.received_batches_total;
  received_transactions_total = wire.received_transactions_total;
  depth_batches = some wire.depth_batches;
  buffered_transactions = some wire.buffered_transactions;
  handoff_batches = base.handoff_batches;
  handoff_batches_total = base.handoff_batches_total;
  blocked_senders = wire.blocked_senders;
  oldest_blocked_sender_ms = wire.oldest_blocked_sender_ms;
  input_batches_per_second = wire.input_batches_per_second;
  output_batches_per_second = wire.output_batches_per_second;
  input_transactions_per_second = wire.input_transactions_per_second;
  output_transactions_per_second = wire.output_transactions_per_second;
  input_tps = some wire.input_transactions_per_second;
  output_tps = some wire.output_transactions_per_second;
  throughput_tps = some wire.output_transactions_per_second;
  blocked_ms = some wire.blocked_ms;
  trend = base.trend;
}

abbrev pub reader_channel_view :
    Option WireSnapshot → ConnectionState → RunState → ChannelTelemetrySnapshot
reader_channel_view none link run_state = neutral_channel reader_to_throttler reader throttler
reader_channel_view (some wire) link run_state =
    filled_channel (neutral_channel reader_to_throttler reader throttler) wire.reader_channel
      wire.config.reader_channel_capacity link run_state

abbrev pub sender_channel_view :
    Option WireSnapshot → ConnectionState → RunState → ChannelTelemetrySnapshot
sender_channel_view none link run_state = neutral_channel throttler_to_sender throttler sender
sender_channel_view (some wire) link run_state =
    filled_channel (neutral_channel throttler_to_sender throttler sender) wire.sender_channel
      wire.config.sender_channel_capacity link run_state
