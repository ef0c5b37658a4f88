-- ===== src/HttpAdapter/Valid/Readers.antt =====
-- The reader of a snapshot response (`decodeWireSnapshot` of frontend/src/adapters/HttpAdapter.ts):
-- decoded, it is valid, and a valid one is read back.
use ingestion_lab_loadgen.Loadgen.{LoadgenConfigSnapshot, RangeControlConfigSnapshot, RunState}
use ingestion_lab_loadgen.Prelude.Texts.{differ→not_equal, not_equal→differ}
use ingestion_lab_loadgen.Prelude.{Option, and_elim, and_intro, arith, none, some, true, ℕ, ◌≡◌}
use ingestion_lab_loadgen.HttpAdapter.Valid.Range.{IsSetting-in_range, in_range-IsSetting}
use ingestion_lab_loadgen.HttpAdapter.Valid.Sections.{
  AddUp-workers_pass, decode_source_errors-Yields, decode_source_errors-encode_optional,
  workers_pass-AddUp, workers_pass-NoneLeft,
}
use ingestion_lab_loadgen.HttpAdapter.Json.Laws.{
  Yields, Yields-accept, Yields-any, Yields-bind, accept-true, wire_integer-Yields,
  wire_integer-natural,
}
use ingestion_lab_loadgen.HttpAdapter.Decode.Reader.{decode_reader, in_some_range, reader_passes}
use ingestion_lab_loadgen.HttpAdapter.Valid.{
  AddUp, Holds, HoldsIfAny, IsReader, IsSafe, IsSetting, IsSourceError,
}
use ingestion_lab_loadgen.HttpAdapter.Wire.{WireReader}
use ingestion_lab_loadgen.HttpAdapter.Encode.{encode_reader}
use ingestion_lab_loadgen.HttpAdapter.Json.{
  Value, exact_object, insert_key, keys, property, same_keys, sort_keys, wire_boolean, wire_number,
  wire_text, ◌>>=◌,
}

in_some_range-Holds :
    (n : ℕ) (o : Option RangeControlConfigSnapshot)
    → in_some_range n o ≡ true
    → Holds (IsSetting n) o
in_some_range-Holds n none h = cc
in_some_range-Holds n (some c) h = in_range-IsSetting n c h

Holds-in_some_range :
    (n : ℕ) (o : Option RangeControlConfigSnapshot)
    → Holds (IsSetting n) o
    → in_some_range n o ≡ true
Holds-in_some_range n none h = absurd h
Holds-in_some_range n (some c) h = IsSetting-in_range n c h

reader_passes-IsReader :
    (config : LoadgenConfigSnapshot) (run : RunState) (r : WireReader)
    → IsSafe r.workers × IsSafe r.read_batch_size × IsSafe r.rows_read × IsSafe r.live_workers
    → HoldsIfAny IsSourceError r.source_error
    → reader_passes config run r ≡ true
    → IsReader config run r
reader_passes-IsReader config run r safe e h =
    let three = and_elim _ _ h in
    let two = and_elim _ _ three.0 in
    let one = and_elim _ _ two.0 in
    record {
      workers = in_some_range-Holds r.workers config.reader_workers one.0;
      batch_size = in_range-IsSetting r.read_batch_size config.reader_read_batch_size one.1;
      counts = workers_pass-AddUp _ _ _ _ _ _ _ _ _ two.1;
      none_left = workers_pass-NoneLeft run _ _ _ _ _ _ _ _ two.1;
      some_directory = not_equal→differ r.source_directory "" three.1;
      source_error = e;
      safe = safe;
    }

IsReader-reader_passes :
    (config : LoadgenConfigSnapshot) (run : RunState) (r : WireReader)
    → IsReader config run r
    → reader_passes config run r ≡ true
IsReader-reader_passes config run r h =
    let workers = Holds-in_some_range r.workers config.reader_workers h.workers in
    let batch = IsSetting-in_range r.read_batch_size config.reader_read_batch_size h.batch_size in
    let counts = AddUp-workers_pass run _ _ _ _ _ _ _ _ h.counts h.none_left in
    and_intro (and_intro (and_intro workers batch) counts)
      (differ→not_equal r.source_directory "" h.some_directory)

pub decode_reader-Yields :
    (config : LoadgenConfigSnapshot) (run : RunState) (value : Value)
    → Yields (IsReader config run) (decode_reader config run value)
unfolding decode_reader
decode_reader-Yields config run value = Yields-any _ _ _ (λ members.
    Yields-bind _ IsSafe _ _ (wire_integer-Yields _) (λ workers h_workers.
      Yields-bind _ IsSafe _ _ (wire_integer-Yields _) (λ batch h_batch. Yields-any _ _ _ (λ tps.
        Yields-bind _ IsSafe _ _ (wire_integer-Yields _) (λ rows h_rows.
          Yields-bind _ IsSafe _ _ (wire_integer-Yields _) (λ live h_live.
            Yields-any _ _ _ (λ idles. Yields-any _ _ _ (λ reads. Yields-any _ _ _ (λ blocks.
              Yields-any _ _ _ (λ drains. Yields-any _ _ _ (λ drain_idles.
                Yields-any _ _ _ (λ drain_reads. Yields-any _ _ _ (λ drain_blocks.
                  Yields-any _ _ _ (λ directory.
                    Yields-bind _ _ _ _ (decode_source_errors-Yields _) (λ error_now h_error_now.
                      Yields-accept _ (reader_passes config run) _ (
                        reader_passes-IsReader config run _ (h_workers, h_batch, h_rows, h_live)
                          h_error_now))))))))))))))))

-- Workers that add up to a safe number are each a safe number.
pub record Safe (a b c da db dc draining : ℕ) : Type 0 where
  pub now : IsSafe a × IsSafe b × IsSafe c
  pub leaving : IsSafe da × IsSafe db × IsSafe dc × IsSafe draining

pub AddUp-Safe :
    {a b c da db dc live draining : ℕ}
    → AddUp a b c da db dc live draining
    → IsSafe live
    → Safe a b c da db dc draining
AddUp-Safe h safe = record {
  now = ground (arith, h.live_sum);
  leaving = ground (arith, h.live_sum, h.draining_sum, h.draining_a, h.draining_b, h.draining_c);
}

pub decode_reader-encode_reader :
    (config : LoadgenConfigSnapshot) (run : RunState) (r : WireReader)
    → IsReader config run r
    → decode_reader config run (encode_reader r) ≡ some r
unfolding decode_reader exact_object property keys sort_keys insert_key same_keys wire_text
    wire_boolean wire_number ◌>>=◌
decode_reader-encode_reader config run r h =
    let parts = AddUp-Safe h.counts h.safe.3 in
    rw
      (
        wire_integer-natural r.workers h.safe.0,
        wire_integer-natural r.read_batch_size h.safe.1,
        wire_integer-natural r.rows_read h.safe.2,
        wire_integer-natural r.live_workers h.safe.3,
        wire_integer-natural r.idle_workers parts.now.0,
        wire_integer-natural r.reading_workers parts.now.1,
        wire_integer-natural r.blocked_workers parts.now.2,
        wire_integer-natural r.draining_workers parts.leaving.3,
        wire_integer-natural r.draining_idle_workers parts.leaving.0,
        wire_integer-natural r.draining_reading_workers parts.leaving.1,
        wire_integer-natural r.draining_blocked_workers parts.leaving.2,
        decode_source_errors-encode_optional r.source_error h.source_error,
      )
      (accept-true (reader_passes config run) r (IsReader-reader_passes config run r h))
