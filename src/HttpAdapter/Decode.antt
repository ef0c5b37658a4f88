-- ===== src/HttpAdapter/Decode.antt =====
-- `decodeWireSnapshot` of frontend/src/adapters/HttpAdapter.ts. An error that it throws is none.
pub mod Reader
pub mod Flow
use Prim.Native.String.{String}
use ingestion_lab_loadgen.Prelude.{List, Option, [], some, ◌∷◌}
use ingestion_lab_loadgen.HttpAdapter.Wire.{WireSnapshot}
use ingestion_lab_loadgen.HttpAdapter.Config.{decode_config}
use ingestion_lab_loadgen.HttpAdapter.Json.{Value, exact_object, property, ◌>>=◌}
use ingestion_lab_loadgen.HttpAdapter.Decode.Reader.{decode_reader, decode_run}
use ingestion_lab_loadgen.HttpAdapter.Decode.Flow.{
  decode_channel_snapshot, decode_sender_values, decode_throttler,
}

abbrev pub wire_keys : List String
wire_keys =
    "config" ∷ "reader" ∷ "readerChannel" ∷ "run" ∷ "sender" ∷ "senderChannel" ∷ "throttler" ∷ []

unfoldable pub decode_wire_snapshot : Value → Option WireSnapshot
decode_wire_snapshot value = do
  members ← exact_object wire_keys value
  config ← decode_config (property members "config")
  wire_run ← decode_run (property members "run")
  wire_reader ← decode_reader config wire_run.state (property members "reader")
  wire_throttler ← decode_throttler config (property members "throttler")
  wire_sender ← decode_sender_values config wire_run.state (property members "sender")
  reader_channel ←
      decode_channel_snapshot config.reader_channel_capacity.allowed
        (property members "readerChannel")
  sender_channel ←
      decode_channel_snapshot config.sender_channel_capacity.allowed
        (property members "senderChannel")
  some (record {
    run = wire_run;
    reader = wire_reader;
    throttler = wire_throttler;
    sender = wire_sender;
    reader_channel = reader_channel;
    sender_channel = sender_channel;
    config = config;
  })
