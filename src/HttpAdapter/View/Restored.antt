-- ===== src/HttpAdapter/View/Restored.antt =====
-- What a snapshot says of the response that it was made from: all of it, read back field by field.
use ingestion_lab_loadgen.HttpAdapter.Valid.{Holds, IsSetting, IsSnapshot}
use ingestion_lab_loadgen.HttpAdapter.View.Controls.{sender_control}
use ingestion_lab_loadgen.HttpAdapter.View.{create_snapshot}
use ingestion_lab_loadgen.HttpAdapter.Wire.{
  WireChannelSnapshot, WireReader, WireSender, WireSnapshot, WireThrottler,
}
use ingestion_lab_loadgen.Loadgen.{
  ChannelTelemetrySnapshot, ConnectionState, LoadgenConfigSnapshot, LoadgenTelemetrySnapshot,
  RangeControlConfigSnapshot, ReaderSnapshot, SenderSnapshot, ThrottlerSnapshot, connected, idle,
  whole,
}
use ingestion_lab_loadgen.Prelude.{Option, ap, false, none, or_else, refl, some, ℕ, ◌≡◌}

abbrev pub restore_reader : ReaderSnapshot → WireReader
restore_reader r = record {
  workers = or_else r.workers.applied 0;
  live_workers = r.live_workers;
  idle_workers = r.idle_workers;
  reading_workers = r.reading_workers;
  blocked_workers = r.blocked_workers;
  draining_workers = r.draining_workers;
  draining_idle_workers = r.draining_idle_workers;
  draining_reading_workers = r.draining_reading_workers;
  draining_blocked_workers = r.draining_blocked_workers;
  read_batch_size = or_else r.read_batch_size.applied 0;
  read_tps = or_else r.read_tps (whole 0);
  rows_read = or_else r.rows_read 0;
  source_directory = or_else r.source_directory "";
  source_error = r.source_error;
}

abbrev pub restore_throttler : ThrottlerSnapshot → WireThrottler
restore_throttler t = record {
  requested_tps = or_else t.requested_tps.applied 0;
  admitted_tps = or_else t.admitted_tps (whole 0);
  installed = or_else t.installed.applied false;
}

abbrev pub restore_sender : SenderSnapshot → WireSender
restore_sender s = record {
  workers = or_else s.workers.applied 0;
  live_workers = s.live_workers;
  idle_workers = s.idle_workers;
  in_flight_workers = s.in_flight_workers;
  backoff_workers = s.backoff_workers;
  draining_workers = s.draining_workers;
  draining_idle_workers = s.draining_idle_workers;
  draining_in_flight_workers = s.draining_in_flight_workers;
  draining_backoff_workers = s.draining_backoff_workers;
}

abbrev pub restore_channel : ChannelTelemetrySnapshot → WireChannelSnapshot
restore_channel c = record {
  capacity = or_else c.capacity.applied 0;
  depth_batches = or_else c.depth_batches 0;
  buffered_transactions = or_else c.buffered_transactions 0;
  blocked_senders = c.blocked_senders;
  oldest_blocked_sender_ms = c.oldest_blocked_sender_ms;
  blocked_ms = or_else c.blocked_ms 0;
  sent_batches_total = c.sent_batches_total;
  sent_transactions_total = c.sent_transactions_total;
  received_batches_total = c.received_batches_total;
  received_transactions_total = c.received_transactions_total;
  input_batches_per_second = c.input_batches_per_second;
  input_transactions_per_second = c.input_transactions_per_second;
  output_batches_per_second = c.output_batches_per_second;
  output_transactions_per_second = c.output_transactions_per_second;
}

-- The response's snapshot with this configuration.
abbrev pub restore : LoadgenConfigSnapshot → LoadgenTelemetrySnapshot → WireSnapshot
restore config s = record {
  run = record {
    state = s.run_state;
    total_transactions = s.total_transactions;
    elapsed_ms = s.elapsed_ms;
  };
  reader = restore_reader s.reader;
  throttler = restore_throttler s.throttler;
  sender = restore_sender s.sender;
  reader_channel = restore_channel s.reader_channel;
  sender_channel = restore_channel s.sender_channel;
  config = config;
}

-- The snapshot is connected and valid, and carries the whole of this response.
pub record Carries (wire : WireSnapshot) (s : LoadgenTelemetrySnapshot) : Type 0 where
  pub valid : IsSnapshot wire
  pub link : s.connection_state ≡ connected
  pub configured : s.config ≡ some wire.config
  pub whole_response : restore wire.config s ≡ wire

-- The snapshot carries none.
pub record IsBlank (link : ConnectionState) (s : LoadgenTelemetrySnapshot) : Type 0 where
  pub linked : s.connection_state ≡ link
  pub unconfigured : s.config ≡ none
  pub idle_run : s.run_state ≡ idle
  pub nothing_done : (s.total_transactions ≡ 0) × (s.elapsed_ms ≡ 0)

pub create_snapshot-IsBlank :
    (revision : ℕ) (link : ConnectionState) → IsBlank link (create_snapshot revision link none)
create_snapshot-IsBlank revision link = record {
  linked = refl;
  unconfigured = refl;
  idle_run = refl;
  nothing_done = (refl, refl);
}

sender_control-applied :
    (P : RangeControlConfigSnapshot → Type 0) (v : ℕ) (o : Option RangeControlConfigSnapshot)
    → Holds P o
    → (sender_control (some v) o connected).applied ≡ some v
sender_control-applied P v none h = absurd h
sender_control-applied P v (some range) h = refl

pub create_snapshot-Carries :
    (revision : ℕ) (wire : WireSnapshot)
    → IsSnapshot wire
    → Carries wire (create_snapshot revision connected (some wire))
create_snapshot-Carries revision wire h = record {
  valid = h;
  link = refl;
  configured = refl;
  whole_response =
      ap (λ o. record wire { reader = record wire.reader { workers = or_else o 0 } })
        (sender_control-applied (IsSetting wire.reader.workers) wire.reader.workers
          wire.config.reader_workers h.reader.workers);
}
