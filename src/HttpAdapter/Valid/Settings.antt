-- ===== src/HttpAdapter/Valid/Settings.antt =====
-- The configuration (`decodeConfig` of frontend/src/adapters/HttpAdapter.ts): decoded, it is valid, and
-- a valid one is read back.
use text.Mathlib.TextEquality.{eq_iff}
use ingestion_lab_loadgen.Prelude.{
  Option, arith, ltb, ltb→lt, none, refl, some, ◌≡◌, ◌≢◌, subst, sym, true,
}
use ingestion_lab_loadgen.HttpAdapter.Valid.Range.{
  decode_range-Yields, decode_range-encode_range, read_range-encode_range,
}
use ingestion_lab_loadgen.HttpAdapter.Valid.Lists.{
  decode_capacity-Yields, decode_installed-Yields, decode_capacity-encode_capacity,
  decode_installed-encode_installed, decode_logging-encode_logging,
}
use ingestion_lab_loadgen.HttpAdapter.Json.Laws.{
  Yields, Yields-accept, Yields-any, Yields-bind, Yields-pure,
}
use ingestion_lab_loadgen.HttpAdapter.Valid.{Holds, IsConfig, sender_range, IsRange}
use ingestion_lab_loadgen.HttpAdapter.Encode.{encode_config, encode_range}
use ingestion_lab_loadgen.HttpAdapter.Config.{
  decode_config, decode_sender, positive_bounds, sender_passes, window_bounds,
}
use ingestion_lab_loadgen.HttpAdapter.Json.{
  accept, Value, exact_object, insert_key, keys, property, same_keys, sort_keys, ◌>>=◌,
}
use ingestion_lab_loadgen.Loadgen.{LoadgenConfigSnapshot, RangeControlConfigSnapshot}

sender_passes-sender_range :
    (c : RangeControlConfigSnapshot) → sender_passes c ≡ true → c ≡ sender_range
sender_passes-sender_range c h =
    let initial : c.initial ≡ 32 = ground arith in
    let lowest : c.min ≡ 1 = ground arith in
    let highest : c.max ≡ 32 = ground arith in
    let step : c.step ≡ 1 = ground arith in
    let unit : c.unit ≡ "workers" = (eq_iff _ _).0 (ground arith) in
    let mutability : c.mutability ≡ "immediate" = (eq_iff _ _).0 (ground arith) in
    λ i. record {
      initial = initial i;
      min = lowest i;
      max = highest i;
      step = step i;
      unit = unit i;
      mutability = mutability i;
    }

sender_range-IsRange : IsRange "workers" "immediate" sender_range
sender_range-IsRange = record {
  safe = (omega arith, omega arith, omega arith, omega arith);
  initial_setting = record { above = omega arith; below = omega arith; on_grid = refl };
  positive_step = omega arith;
  right_unit = refl;
  right_mutability = refl;
}

decode_sender-encode_range :
    (c : RangeControlConfigSnapshot) → c ≡ sender_range → decode_sender (encode_range c) ≡ some c
unfolding decode_sender accept ◌>>=◌
decode_sender-encode_range c h =
    subst (λ x. decode_sender (encode_range x) ≡ some x) (sym h)
      (rw (read_range-encode_range _ _ sender_range sender_range-IsRange))

decode_sender-Yields : (value : Value) → Yields (λ c. c ≡ sender_range) (decode_sender value)
unfolding decode_sender
decode_sender-Yields value =
    Yields-any _ _ _ (λ c. Yields-accept _ sender_passes c (sender_passes-sender_range c))

pub decode_config-Yields : (value : Value) → Yields IsConfig (decode_config value)
unfolding decode_config
decode_config-Yields value = Yields-any _ _ _ (λ members.
    Yields-bind _ _ _ _ (decode_range-Yields _ _ positive_bounds _) (λ batch_size h_batch.
      Yields-bind _ _ _ _ (decode_range-Yields _ _ positive_bounds _) (λ workers h_workers.
        Yields-bind _ _ _ _ (decode_range-Yields _ _ window_bounds _) (λ window h_window.
          Yields-bind _ _ _ _ (decode_capacity-Yields _) (λ readers h_readers.
            Yields-bind _ _ _ _ (decode_capacity-Yields _) (λ senders h_senders.
              Yields-bind _ _ _ _ (decode_range-Yields _ _ ltb _) (λ tps h_tps.
                Yields-bind _ _ _ _ (decode_installed-Yields _) (λ installed h_installed.
                  Yields-bind _ _ _ _ (decode_sender-Yields _) (λ sender h_sender.
                    Yields-any _ _ _ (λ logging. Yields-pure _ _ (record {
                      batch_size = (h_batch.0, ground arith);
                      reader_workers = (h_workers.0, ground arith);
                      window = h_window.0;
                      window_bounds = (ground arith, ground arith);
                      reader_capacity = h_readers;
                      sender_capacity = h_senders;
                      requested_tps = h_tps.0;
                      tps_bounds = ltb→lt _ _ h_tps.1;
                      installed = h_installed;
                      sender_workers = h_sender;
                      logging = λ e. cc;
                    })))))))))))

some_of_Holds {ℓ} :
    {A : Type ℓ} (P : A → Type 0) (o : Option A) → Holds P o → (a : A) × (o ≡ some a) × P a
some_of_Holds P none h = absurd h
some_of_Holds P (some a) h = (a, refl, h)

some_of_not_none {ℓ} : {A : Type ℓ} (o : Option A) → o ≢ none → (a : A) × (o ≡ some a)
some_of_not_none none h = absurd (h refl)
some_of_not_none (some a) h = (a, refl)

pub decode_config-encode_config :
    (c : LoadgenConfigSnapshot) → IsConfig c → decode_config (encode_config c) ≡ some c
unfolding decode_config exact_object property keys sort_keys insert_key same_keys ◌>>=◌
decode_config-encode_config c h =
    let workers = some_of_Holds _ c.reader_workers h.reader_workers in
    let logging = some_of_not_none c.logging h.logging in
    rw
      (
        workers.1,
        logging.1,
        decode_range-encode_range _ _ positive_bounds c.reader_read_batch_size h.batch_size.0
            (ground (arith, h.batch_size)),
        decode_range-encode_range _ _ positive_bounds workers.0 workers.2.0
            (ground (arith, workers.2)),
        decode_range-encode_range _ _ window_bounds c.metrics_window_ms h.window
            (ground (arith, h.window_bounds)),
        decode_capacity-encode_capacity c.reader_channel_capacity h.reader_capacity,
        decode_capacity-encode_capacity c.sender_channel_capacity h.sender_capacity,
        decode_range-encode_range _ _ ltb c.throttler_requested_tps h.requested_tps
            (ground (arith, h.tps_bounds)),
        decode_installed-encode_installed c.throttler_installed h.installed,
        decode_sender-encode_range c.sender_workers h.sender_workers,
        decode_logging-encode_logging logging.0,
      )
      (rw (← workers.1, ← logging.1))
