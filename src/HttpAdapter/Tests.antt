-- ===== src/HttpAdapter/Tests.antt =====
-- Concrete runs of the properties of the HTTP adapter, and the data that they use.
use ingestion_lab_loadgen.Prelude.{
  List, [], arith, false, inr, none, refl, some, true, ◌%◌, ◌-◌, ◌<◌, ◌∷◌, ◌≡◌, ◌≤◌,
}
use ingestion_lab_loadgen.Prelude.Int.{pos}
use ingestion_lab_loadgen.HttpAdapter.Valid.RoundTrip.{
  decode_wire_snapshot-IsSnapshot, decode_wire_snapshot-encode_snapshot,
}
use ingestion_lab_loadgen.HttpAdapter.Machine.Polling.{
  IsSteady, happen_all-IsSteady, Delivered, poll_settled-Delivered, response_with,
}
use ingestion_lab_loadgen.HttpAdapter.Machine.Events.{
  Event, command_answered, command_sent, happen_all, listener_added, poll_answered, timer_fired,
  turn_came,
}
use ingestion_lab_loadgen.HttpAdapter.Machine.Answers.{
  Accounted, answers, due, happen_all-Accounted,
}
use ingestion_lab_loadgen.HttpAdapter.Machine.Order.{IsOrderly, happen_all-IsOrderly}
use ingestion_lab_loadgen.HttpAdapter.Machine.Progress.{schedule, schedule-answered}
use ingestion_lab_loadgen.HttpAdapter.Machine.Admitted.{AsksAdmissibly, happen-AsksAdmissibly}
use ingestion_lab_loadgen.HttpAdapter.Machine.Silence.{IsSilentSince, happen_all-IsSilentSince}
use ingestion_lab_loadgen.HttpAdapter.Valid.{
  IsCapacityList, IsChannel, IsConfig, IsRange, IsSafe, IsSnapshot, sender_range,
}
use ingestion_lab_loadgen.HttpAdapter.Machine.{
  create_adapter, dispatch, dispose, poll, poll_settled,
}
use ingestion_lab_loadgen.HttpAdapter.Wire.{WireChannelSnapshot, WireSnapshot}
use ingestion_lab_loadgen.HttpAdapter.Encode.{encode_snapshot}
use ingestion_lab_loadgen.HttpAdapter.Decode.{decode_wire_snapshot}
use ingestion_lab_loadgen.Loadgen.{
  AllowedControlConfigSnapshot, InstalledConfigSnapshot, LoadgenConfigSnapshot,
  RangeControlConfigSnapshot, debug, fraction, open_file, pause, reset, running, set_http_timeout,
  set_requested_tps, source, startup_only, whole,
}
use ingestion_lab_loadgen.HttpAdapter.Machine.{HttpAdapter, subscribe}
use ingestion_lab_loadgen.HttpAdapter.Machine.Events.{happen}

abbrev batch_range : RangeControlConfigSnapshot
batch_range = record {
  initial = 100;
  min = 50;
  max = 500;
  step = 50;
  unit = "transactions";
  mutability = "idle-only";
}

abbrev worker_range : RangeControlConfigSnapshot
worker_range = record {
  initial = 4;
  min = 1;
  max = 8;
  step = 1;
  unit = "workers";
  mutability = "immediate";
}

abbrev window_range : RangeControlConfigSnapshot
window_range = record {
  initial = 1_000;
  min = 100;
  max = 10_000;
  step = 100;
  unit = "milliseconds";
  mutability = "startup-only";
}

abbrev tps_range : RangeControlConfigSnapshot
tps_range = record {
  initial = 5_000;
  min = 0;
  max = 10_000;
  step = 1_000;
  unit = "transactions/s";
  mutability = "immediate";
}

abbrev capacities : AllowedControlConfigSnapshot
capacities = record {
  initial = 4;
  allowed = 1 ∷ 4 ∷ 16 ∷ [];
  unit = "batches";
  mutability = "idle-only";
}

abbrev two_modes : InstalledConfigSnapshot
two_modes = record { initial = true; allowed = false ∷ true ∷ []; mutability = "immediate" }

abbrev service_config : LoadgenConfigSnapshot
service_config = record {
  reader_read_batch_size = batch_range;
  reader_workers = some worker_range;
  reader_channel_capacity = capacities;
  sender_channel_capacity = capacities;
  metrics_window_ms = window_range;
  throttler_requested_tps = tps_range;
  throttler_installed = two_modes;
  sender_workers = sender_range;
  logging = some (record { level = debug; mutability = startup_only });
}

abbrev busy_channel : WireChannelSnapshot
busy_channel = record {
  capacity = 4;
  depth_batches = 2;
  buffered_transactions = 200;
  blocked_senders = 1;
  oldest_blocked_sender_ms = 30;
  blocked_ms = 30;
  sent_batches_total = 12;
  sent_transactions_total = 1_200;
  received_batches_total = 10;
  received_transactions_total = 1_000;
  input_batches_per_second = record { numerator = 25; divisor = 1 };
  input_transactions_per_second = whole 1_250;
  output_batches_per_second = whole 10;
  output_transactions_per_second = whole 1_000;
}

abbrev running_service : WireSnapshot
running_service = record {
  run = record { state = running; total_transactions = 1_000; elapsed_ms = 1_500 };
  reader = record {
    workers = 4;
    live_workers = 5;
    idle_workers = 1;
    reading_workers = 3;
    blocked_workers = 1;
    draining_workers = 1;
    draining_idle_workers = 0;
    draining_reading_workers = 1;
    draining_blocked_workers = 0;
    read_batch_size = 100;
    read_tps = record { numerator = 2_501; divisor = 1 };
    rows_read = 1_300;
    source_directory = "data";
    source_error = some (record {
      category = source;
      operation = open_file;
      relative_path = "part/7.csv";
      message = "permission denied";
    });
  };
  throttler = record { requested_tps = 5_000; admitted_tps = whole 1_000; installed = true };
  sender = record {
    workers = 32;
    live_workers = 32;
    idle_workers = 20;
    in_flight_workers = 10;
    backoff_workers = 2;
    draining_workers = 0;
    draining_idle_workers = 0;
    draining_in_flight_workers = 0;
    draining_backoff_workers = 0;
  };
  reader_channel = busy_channel;
  sender_channel = busy_channel;
  config = service_config;
}

capacities-IsCapacityList : IsCapacityList capacities
capacities-IsCapacityList = record {
  safe = (omega arith, (omega arith, (omega arith, tt)));
  increases = ((omega arith, (omega arith, tt)), ((omega arith, tt), (tt, tt)));
  initial_member = (1, refl);
  right_unit = refl;
  right_mutability = refl;
}

bounds-IsRange :
    (c : RangeControlConfigSnapshot)
    → IsSafe c.initial × IsSafe c.min × IsSafe c.max × IsSafe c.step
    → c.min ≤ c.initial × c.initial ≤ c.max × 0 < c.step
    → (c.initial - c.min) % c.step ≡ 0
    → IsRange c.unit c.mutability c
bounds-IsRange c safe bounds grid = record {
  safe = safe;
  initial_setting = record { above = bounds.0; below = bounds.1; on_grid = grid };
  positive_step = bounds.2;
  right_unit = refl;
  right_mutability = refl;
}

service_config-IsConfig : IsConfig service_config
service_config-IsConfig = record {
  batch_size = (bounds-IsRange batch_range (omega arith) (omega arith) refl, omega arith);
  reader_workers = (bounds-IsRange worker_range (omega arith) (omega arith) refl, omega arith);
  window = bounds-IsRange window_range (omega arith) (omega arith) refl;
  window_bounds = (omega arith, omega arith);
  reader_capacity = capacities-IsCapacityList;
  sender_capacity = capacities-IsCapacityList;
  requested_tps = bounds-IsRange tps_range (omega arith) (omega arith) refl;
  tps_bounds = omega arith;
  installed = record { both = inr refl; right_mutability = refl };
  sender_workers = refl;
  logging = λ e. cc;
}

busy_channel-IsChannel : IsChannel (1 ∷ 4 ∷ 16 ∷ []) busy_channel
busy_channel-IsChannel = record {
  capacity = (1, refl);
  safe_state = omega arith;
  safe_totals = omega arith;
}

running_service-IsSnapshot : IsSnapshot running_service
running_service-IsSnapshot = record {
  config = service_config-IsConfig;
  run = record { safe = omega arith };
  reader = record {
    workers = record { above = omega arith; below = omega arith; on_grid = refl };
    batch_size = record { above = omega arith; below = omega arith; on_grid = refl };
    counts = record {
      live_sum = refl;
      draining_sum = refl;
      draining_a = omega arith;
      draining_b = omega arith;
      draining_c = omega arith;
    };
    none_left = tt;
    some_directory = λ e. cc;
    source_error = record {
      some_path = λ e. cc;
      relative = refl;
      inside = refl;
      some_message = λ e. cc;
    };
    safe = omega arith;
  };
  throttler = record {
    requested = record { above = omega arith; below = omega arith; on_grid = refl };
    installed = (1, refl);
    safe = omega arith;
  };
  sender = record {
    workers = record { above = omega arith; below = omega arith; on_grid = refl };
    counts = record {
      live_sum = refl;
      draining_sum = refl;
      draining_a = omega arith;
      draining_b = omega arith;
      draining_c = omega arith;
    };
    none_left = tt;
    safe = omega arith;
  };
  reader_channel = busy_channel-IsChannel;
  sender_channel = busy_channel-IsChannel;
}

decode_wire_snapshot-encode_snapshot_example :
    decode_wire_snapshot (encode_snapshot running_service) ≡ some running_service
decode_wire_snapshot-encode_snapshot_example =
    decode_wire_snapshot-encode_snapshot running_service running_service-IsSnapshot

decode_wire_snapshot-IsSnapshot_example : IsSnapshot running_service
decode_wire_snapshot-IsSnapshot_example =
    decode_wire_snapshot-IsSnapshot (encode_snapshot running_service) running_service
      (decode_wire_snapshot-encode_snapshot running_service running_service-IsSnapshot)

-- A response, two commands that need it, a listener, the turn of the first, its answer, and the end.
abbrev some_events : List Event
some_events =
    listener_added 1
    ∷ poll_answered (some (response_with 200 "Application/JSON; charset=utf-8" running_service))
    ∷ command_sent (set_requested_tps (fraction (pos 6_000) 0))
    ∷ command_sent (set_http_timeout (fraction (pos 500) 0))
    ∷ command_sent pause
    ∷ turn_came
    ∷ timer_fired
    ∷ poll_answered none
    ∷ command_answered (some (record { status = 503; content_type = none; body = none })) 2_000
    ∷ []

-- A response, and a command that needs it.
abbrev before_turn : List Event
before_turn =
    poll_answered (some (response_with 200 "application/json" running_service))
    ∷ command_sent (set_requested_tps (fraction (pos 6_000) 0))
    ∷ []

happen-AsksAdmissibly_example :
    AsksAdmissibly
      (happen_all before_turn create_adapter)
      (happen turn_came (happen_all before_turn create_adapter))
happen-AsksAdmissibly_example =
    happen-AsksAdmissibly turn_came (happen_all before_turn create_adapter)

happen_all-Accounted_example : Accounted 1 (happen_all some_events create_adapter)
happen_all-Accounted_example = happen_all-Accounted some_events 1

happen_all-IsOrderly_example : IsOrderly (happen_all some_events create_adapter)
happen_all-IsOrderly_example = happen_all-IsOrderly some_events

happen_all-IsSteady_example : IsSteady (happen_all some_events create_adapter)
happen_all-IsSteady_example = happen_all-IsSteady some_events

happen_all-IsSilentSince_example :
    IsSilentSince create_adapter (happen_all some_events (dispose create_adapter))
happen_all-IsSilentSince_example = happen_all-IsSilentSince create_adapter some_events

-- A reset waits; one answer does not settle it, two do.
schedule-answered_example :
    answers 1 (
      happen_all
        (schedule ((none, 10) ∷ (none, 20) ∷ []))
        (happen_all (command_sent reset ∷ []) create_adapter))
    ≡ due 1 (happen_all (command_sent reset ∷ []) create_adapter)
unfolding create_adapter poll dispatch
schedule-answered_example =
    schedule-answered (command_sent reset ∷ []) ((none, 10) ∷ (none, 20) ∷ []) 1 (omega arith)

-- An adapter with a listener, whose first request is in flight.
abbrev listened : HttpAdapter
listened = subscribe 4 create_adapter

poll_settled-Delivered_example : Delivered running_service listened (
    poll_settled
      (some (response_with 200 "application/json; charset=utf-8" running_service))
      listened)
unfolding create_adapter poll subscribe
poll_settled-Delivered_example =
    poll_settled-Delivered listened 200 "application/json; charset=utf-8" running_service refl refl
      (omega arith, omega arith) refl running_service-IsSnapshot
