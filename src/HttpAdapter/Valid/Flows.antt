-- ===== src/HttpAdapter/Valid/Flows.antt =====
-- The throttler, the sender and the channels of a snapshot response (`decodeWireSnapshot` and
-- `decodeChannelSnapshot` of frontend/src/adapters/HttpAdapter.ts): decoded, they are valid, and valid
-- ones are read back.
use ingestion_lab_loadgen.Loadgen.{LoadgenConfigSnapshot, RunState}
use ingestion_lab_loadgen.Prelude.{
  Bool, List, [], and_elim, and_intro, false, get_elem?, get_elem?→includes, includes,
  includes→get_elem?, refl, some, suc, true, zero, ℕ, ◌∷◌, ◌≡◌,
}
use ingestion_lab_loadgen.HttpAdapter.Valid.Range.{IsSetting-in_range, in_range-IsSetting}
use ingestion_lab_loadgen.HttpAdapter.Valid.Readers.{AddUp-Safe}
use ingestion_lab_loadgen.HttpAdapter.Valid.Sections.{
  AddUp-workers_pass, workers_pass-AddUp, workers_pass-NoneLeft,
}
use ingestion_lab_loadgen.HttpAdapter.Json.Laws.{
  Yields, Yields-accept, Yields-any, Yields-bind, accept-true, wire_integer-Yields,
  wire_integer-natural,
}
use ingestion_lab_loadgen.HttpAdapter.Decode.Flow.{
  decode_channel_snapshot, decode_sender_values, decode_throttler, sender_values_pass,
  throttler_passes,
}
use ingestion_lab_loadgen.HttpAdapter.Valid.{IsChannel, IsMember, IsSafe, IsSender, IsThrottler}
use ingestion_lab_loadgen.HttpAdapter.Wire.{WireChannelSnapshot, WireSender, WireThrottler}
use ingestion_lab_loadgen.HttpAdapter.Encode.{encode_channel, encode_sender, encode_throttler}
use ingestion_lab_loadgen.HttpAdapter.Config.{includes_boolean}
use ingestion_lab_loadgen.HttpAdapter.Json.{
  Value, exact_object, insert_key, keys, property, same_keys, sort_keys, wire_boolean, wire_number,
  wire_text, ◌>>=◌,
}

-- A Boolean that the list holds is in one of its places.
pub includes_boolean-IsMember :
    (bs : List Bool) (b : Bool) → includes_boolean bs b ≡ true → IsMember b bs
includes_boolean-IsMember [] b h = cc
includes_boolean-IsMember (true ∷ bs) true h = (0, refl)
includes_boolean-IsMember (true ∷ bs) false h =
    let later = includes_boolean-IsMember bs false h in (suc later.0, later.1)
includes_boolean-IsMember (false ∷ bs) false h = (0, refl)
includes_boolean-IsMember (false ∷ bs) true h =
    let later = includes_boolean-IsMember bs true h in (suc later.0, later.1)

IsMember-includes_boolean :
    (bs : List Bool) (b : Bool) (i : ℕ) → get_elem? bs i ≡ some b → includes_boolean bs b ≡ true
IsMember-includes_boolean [] b i h = cc
IsMember-includes_boolean (true ∷ bs) true i h = refl
IsMember-includes_boolean (false ∷ bs) false i h = refl
IsMember-includes_boolean (true ∷ bs) false zero h = cc
IsMember-includes_boolean (false ∷ bs) true zero h = cc
IsMember-includes_boolean (true ∷ bs) false (suc i) h = IsMember-includes_boolean bs false i h
IsMember-includes_boolean (false ∷ bs) true (suc i) h = IsMember-includes_boolean bs true i h

pub decode_throttler-Yields :
    (config : LoadgenConfigSnapshot) (value : Value)
    → Yields (IsThrottler config) (decode_throttler config value)
unfolding decode_throttler
decode_throttler-Yields config value = Yields-any _ _ _ (λ members.
    Yields-bind _ IsSafe _ _ (wire_integer-Yields _) (λ requested h_requested.
      Yields-any _ _ _ (λ admitted. Yields-any _ _ _ (λ installed.
        Yields-accept _ (throttler_passes config) _ (λ h.
          let parts = and_elim _ _ h in
          record {
            requested = in_range-IsSetting requested config.throttler_requested_tps parts.0;
            installed = includes_boolean-IsMember _ installed parts.1;
            safe = h_requested;
          })))))

pub decode_throttler-encode_throttler :
    (config : LoadgenConfigSnapshot) (t : WireThrottler)
    → IsThrottler config t
    → decode_throttler config (encode_throttler t) ≡ some t
unfolding decode_throttler exact_object property keys sort_keys insert_key same_keys wire_text
    wire_boolean wire_number ◌>>=◌
decode_throttler-encode_throttler config t h = rw (wire_integer-natural t.requested_tps h.safe) (
    accept-true (throttler_passes config) t (
      and_intro (IsSetting-in_range t.requested_tps config.throttler_requested_tps h.requested)
        (IsMember-includes_boolean _ t.installed h.installed.0 h.installed.1)))

pub decode_sender_values-Yields :
    (config : LoadgenConfigSnapshot) (run : RunState) (value : Value)
    → Yields (IsSender config run) (decode_sender_values config run value)
unfolding decode_sender_values
decode_sender_values-Yields config run value = Yields-any _ _ _ (λ members.
    Yields-bind _ IsSafe _ _ (wire_integer-Yields _) (λ workers h_workers.
      Yields-bind _ IsSafe _ _ (wire_integer-Yields _) (λ live h_live. Yields-any _ _ _ (λ idles.
        Yields-any _ _ _ (λ flights. Yields-any _ _ _ (λ backoffs. Yields-any _ _ _ (λ drains.
          Yields-any _ _ _ (λ drain_idles. Yields-any _ _ _ (λ drain_flights.
            Yields-any _ _ _ (λ drain_backoffs.
              Yields-accept _ (sender_values_pass config run) _ (λ h.
                let parts = and_elim _ _ h in
                record {
                  workers = in_range-IsSetting workers config.sender_workers parts.0;
                  counts = workers_pass-AddUp _ _ _ _ _ _ _ _ _ parts.1;
                  none_left = workers_pass-NoneLeft run _ _ _ _ _ _ _ _ parts.1;
                  safe = (h_workers, h_live);
                })))))))))))

pub decode_sender_values-encode_sender :
    (config : LoadgenConfigSnapshot) (run : RunState) (s : WireSender)
    → IsSender config run s
    → decode_sender_values config run (encode_sender s) ≡ some s
unfolding decode_sender_values exact_object property keys sort_keys insert_key same_keys wire_text
    wire_boolean wire_number ◌>>=◌
decode_sender_values-encode_sender config run s h =
    let parts = AddUp-Safe h.counts h.safe.1 in
    rw
      (
        wire_integer-natural s.workers h.safe.0,
        wire_integer-natural s.live_workers h.safe.1,
        wire_integer-natural s.idle_workers parts.now.0,
        wire_integer-natural s.in_flight_workers parts.now.1,
        wire_integer-natural s.backoff_workers parts.now.2,
        wire_integer-natural s.draining_workers parts.leaving.3,
        wire_integer-natural s.draining_idle_workers parts.leaving.0,
        wire_integer-natural s.draining_in_flight_workers parts.leaving.1,
        wire_integer-natural s.draining_backoff_workers parts.leaving.2,
      )
      (accept-true (sender_values_pass config run) s (
        and_intro (IsSetting-in_range s.workers config.sender_workers h.workers)
          (AddUp-workers_pass run _ _ _ _ _ _ _ _ h.counts h.none_left)))

pub decode_channel_snapshot-Yields :
    (allowed : List ℕ) (value : Value)
    → Yields (IsChannel allowed) (decode_channel_snapshot allowed value)
unfolding decode_channel_snapshot
decode_channel_snapshot-Yields allowed value = Yields-any _ _ _ (λ members.
    Yields-bind _ IsSafe _ _ (wire_integer-Yields _) (λ capacity h_capacity.
      Yields-bind _ IsSafe _ _ (wire_integer-Yields _) (λ depth h_depth.
        Yields-bind _ IsSafe _ _ (wire_integer-Yields _) (λ buffered h_buffered.
          Yields-bind _ IsSafe _ _ (wire_integer-Yields _) (λ blocked h_blocked.
            Yields-bind _ IsSafe _ _ (wire_integer-Yields _) (λ oldest h_oldest.
              Yields-bind _ IsSafe _ _ (wire_integer-Yields _) (λ blocked_ms h_blocked_ms.
                Yields-bind _ IsSafe _ _ (wire_integer-Yields _) (λ sent_batches h_sent_batches.
                  Yields-bind _ IsSafe _ _ (wire_integer-Yields _)
                    (λ sent_transactions h_sent_transactions.
                      Yields-bind _ IsSafe _ _ (wire_integer-Yields _)
                        (λ received_batches h_received_batches.
                          Yields-bind _ IsSafe _ _ (wire_integer-Yields _)
                            (λ received_transactions h_received_transactions.
                              Yields-any _ _ _ (λ ib. Yields-any _ _ _ (λ it.
                                Yields-any _ _ _ (λ ob. Yields-any _ _ _ (λ ot.
                                  Yields-accept _ (λ c. includes allowed c.capacity) _
                                    (λ h. record {
                                      capacity = includes→get_elem? allowed capacity h;
                                      safe_state = (
                                        h_capacity, h_depth, h_buffered, h_blocked, h_oldest,
                                        h_blocked_ms,
                                      );
                                      safe_totals = (
                                        h_sent_batches, h_sent_transactions, h_received_batches,
                                        h_received_transactions,
                                      );
                                    }))))))))))))))))

pub decode_channel_snapshot-encode_channel :
    (allowed : List ℕ) (c : WireChannelSnapshot)
    → IsChannel allowed c
    → decode_channel_snapshot allowed (encode_channel c) ≡ some c
unfolding decode_channel_snapshot exact_object property keys sort_keys insert_key same_keys
    wire_text wire_boolean wire_number ◌>>=◌
decode_channel_snapshot-encode_channel allowed c h =
    rw
      (
        wire_integer-natural c.capacity h.safe_state.0,
        wire_integer-natural c.depth_batches h.safe_state.1,
        wire_integer-natural c.buffered_transactions h.safe_state.2,
        wire_integer-natural c.blocked_senders h.safe_state.3,
        wire_integer-natural c.oldest_blocked_sender_ms h.safe_state.4,
        wire_integer-natural c.blocked_ms h.safe_state.5,
        wire_integer-natural c.sent_batches_total h.safe_totals.0,
        wire_integer-natural c.sent_transactions_total h.safe_totals.1,
        wire_integer-natural c.received_batches_total h.safe_totals.2,
        wire_integer-natural c.received_transactions_total h.safe_totals.3,
      )
      (accept-true (λ x. includes allowed x.capacity) c
        (get_elem?→includes allowed h.capacity.0 h.capacity.1))
