-- ===== src/HttpAdapter/Valid/RoundTrip.antt =====
-- A snapshot response as a whole (`decodeWireSnapshot` of frontend/src/adapters/HttpAdapter.ts).
use ingestion_lab_loadgen.Prelude.{some, ◌≡◌}
use ingestion_lab_loadgen.HttpAdapter.Valid.Readers.{
  decode_reader-Yields, decode_reader-encode_reader,
}
use ingestion_lab_loadgen.HttpAdapter.Valid.Settings.{
  decode_config-Yields, decode_config-encode_config,
}
use ingestion_lab_loadgen.HttpAdapter.Valid.Sections.{decode_run-Yields, decode_run-encode_run}
use ingestion_lab_loadgen.HttpAdapter.Valid.Flows.{
  decode_channel_snapshot-Yields, decode_channel_snapshot-encode_channel,
  decode_sender_values-Yields, decode_sender_values-encode_sender, decode_throttler-Yields,
  decode_throttler-encode_throttler,
}
use ingestion_lab_loadgen.HttpAdapter.Json.Laws.{
  Yields, Yields-any, Yields-bind, Yields-pure, Yields-some,
}
use ingestion_lab_loadgen.HttpAdapter.Valid.{IsSnapshot}
use ingestion_lab_loadgen.HttpAdapter.Wire.{WireSnapshot}
use ingestion_lab_loadgen.HttpAdapter.Encode.{encode_snapshot}
use ingestion_lab_loadgen.HttpAdapter.Json.{
  Value, exact_object, insert_key, keys, property, same_keys, sort_keys, ◌>>=◌,
}
use ingestion_lab_loadgen.HttpAdapter.Decode.{decode_wire_snapshot}

pub decode_wire_snapshot-Yields : (value : Value) → Yields IsSnapshot (decode_wire_snapshot value)
unfolding decode_wire_snapshot
decode_wire_snapshot-Yields value = Yields-any _ _ _ (λ members.
    Yields-bind _ _ _ _ (decode_config-Yields _) (λ config h_config.
      Yields-bind _ _ _ _ (decode_run-Yields _) (λ now h_run.
        Yields-bind _ _ _ _ (decode_reader-Yields config now.state _) (λ readers h_reader.
          Yields-bind _ _ _ _ (decode_throttler-Yields config _) (λ throttlers h_throttler.
            Yields-bind _ _ _ _ (decode_sender_values-Yields config now.state _)
              (λ senders h_sender.
                Yields-bind _ _ _ _ (decode_channel_snapshot-Yields _ _) (λ first h_first.
                  Yields-bind _ _ _ _ (decode_channel_snapshot-Yields _ _) (λ second h_second.
                    Yields-pure _ _ (record {
                      config = h_config;
                      run = h_run;
                      reader = h_reader;
                      throttler = h_throttler;
                      sender = h_sender;
                      reader_channel = h_first;
                      sender_channel = h_second;
                    })))))))))

-- A body that is decoded, whatever it is, gives a valid snapshot.
pub decode_wire_snapshot-IsSnapshot :
    (value : Value) (w : WireSnapshot) → decode_wire_snapshot value ≡ some w → IsSnapshot w
decode_wire_snapshot-IsSnapshot value w h =
    Yields-some IsSnapshot _ (decode_wire_snapshot-Yields value) h

-- The body that carries a valid snapshot is decoded, and gives that snapshot back.
pub decode_wire_snapshot-encode_snapshot :
    (w : WireSnapshot) → IsSnapshot w → decode_wire_snapshot (encode_snapshot w) ≡ some w
unfolding decode_wire_snapshot exact_object property keys sort_keys insert_key same_keys ◌>>=◌
decode_wire_snapshot-encode_snapshot w h = rw (
  decode_config-encode_config w.config h.config,
  decode_run-encode_run w.run h.run,
  decode_reader-encode_reader w.config w.run.state w.reader h.reader,
  decode_throttler-encode_throttler w.config w.throttler h.throttler,
  decode_sender_values-encode_sender w.config w.run.state w.sender h.sender,
  decode_channel_snapshot-encode_channel _ w.reader_channel h.reader_channel,
  decode_channel_snapshot-encode_channel _ w.sender_channel h.sender_channel,
)
