-- ===== src/HttpAdapter/Valid/Sections.antt =====
-- The run, the reader and the throttler of a snapshot response (frontend/src/adapters/HttpAdapter.ts):
-- decoded, they are valid, and valid ones are read back.
use ingestion_lab_loadgen.Prelude.{
  arith, refl, some, true, ℕ, ◌≡◌, Bool, Option, none, not, ◌&&◌, ◌==◌, ◌||◌, ◌≤◌,
}
use ingestion_lab_loadgen.HttpAdapter.Json.Laws.{
  Yields, Yields-any, Yields-bind, Yields-pure, wire_integer-Yields, wire_integer-natural,
  Yields-accept, accept-true,
}
use ingestion_lab_loadgen.HttpAdapter.Decode.Reader.{
  decode_run, is_stopped, read_run_state, source_error_passes, workers_pass, decode_source_error,
  decode_source_errors, read_operation,
}
use ingestion_lab_loadgen.HttpAdapter.Valid.{
  AddUp, IsRun, IsSafe, IsSourceError, NoneLeft, HoldsIfAny,
}
use ingestion_lab_loadgen.HttpAdapter.Wire.{WireRun}
use ingestion_lab_loadgen.HttpAdapter.Encode.{
  encode_run, run_state_name, encode_optional, encode_source_error, operation_name,
}
use ingestion_lab_loadgen.HttpAdapter.Json.{
  Value, exact_object, insert_key, keys, property, same_keys, sort_keys, string, ◌>>=◌, array,
  boolean, null, number, object, undefined, wire_text,
}
use ingestion_lab_loadgen.Loadgen.{
  ReaderSourceErrorSnapshot, RunState, faulted, idle, paused, running, ErrorCategory,
  SourceOperation, close, glob, open_file, read, reader_close, source,
}
use ingestion_lab_loadgen.Prelude.Texts.{differ→not_equal, not_equal→differ}

read_run_state-run_state_name :
    (state : RunState) → read_run_state (string (run_state_name state)) ≡ some state
read_run_state-run_state_name idle = refl
read_run_state-run_state_name running = refl
read_run_state-run_state_name paused = refl
read_run_state-run_state_name faulted = refl

pub decode_run-Yields : (value : Value) → Yields IsRun (decode_run value)
unfolding decode_run
decode_run-Yields value = Yields-any _ _ _ (λ members. Yields-any _ _ _ (λ state.
    Yields-bind _ IsSafe _ _ (wire_integer-Yields _) (λ elapsed h_elapsed.
      Yields-bind _ IsSafe _ _ (wire_integer-Yields _)
        (λ total h_total. Yields-pure _ _ (record { safe = (h_elapsed, h_total) })))))

pub decode_run-encode_run : (r : WireRun) → IsRun r → decode_run (encode_run r) ≡ some r
unfolding decode_run exact_object property keys sort_keys insert_key same_keys ◌>>=◌
decode_run-encode_run r h = rw (
  read_run_state-run_state_name r.state,
  wire_integer-natural r.elapsed_ms h.safe.0,
  wire_integer-natural r.total_transactions h.safe.1,
)

-- What the check of an actor's workers says.
pub workers_pass-AddUp :
    (stopped : Bool) (a b c da db dc live draining : ℕ)
    → workers_pass stopped a b c da db dc live draining ≡ true
    → AddUp a b c da db dc live draining
workers_pass-AddUp stopped a b c da db dc live draining h = record {
  live_sum = ground arith;
  draining_sum = ground arith;
  draining_a = ground arith;
  draining_b = ground arith;
  draining_c = ground arith;
}

pub workers_pass-NoneLeft :
    (run : RunState) (a b c da db dc live draining : ℕ)
    → workers_pass (is_stopped run) a b c da db dc live draining ≡ true
    → NoneLeft run live
workers_pass-NoneLeft idle a b c da db dc live draining h = ground arith
workers_pass-NoneLeft running a b c da db dc live draining h = tt
workers_pass-NoneLeft paused a b c da db dc live draining h = tt
workers_pass-NoneLeft faulted a b c da db dc live draining h = ground arith

AddUp-draining-le :
    (a b c da db dc live draining : ℕ) → AddUp a b c da db dc live draining → draining ≤ live
AddUp-draining-le a b c da db dc live draining h =
    omega (arith, h.live_sum, h.draining_sum, h.draining_a, h.draining_b, h.draining_c)

NoneLeft-stopped :
    (run : RunState) (live draining : ℕ)
    → draining ≤ live
    → NoneLeft run live
    → not (is_stopped run && (not (live == 0) || not (draining == 0))) ≡ true
NoneLeft-stopped idle live draining l h = ground arith
NoneLeft-stopped running live draining l h = refl
NoneLeft-stopped paused live draining l h = refl
NoneLeft-stopped faulted live draining l h = ground arith

pub AddUp-workers_pass :
    (run : RunState) (a b c da db dc live draining : ℕ)
    → AddUp a b c da db dc live draining
    → NoneLeft run live
    → workers_pass (is_stopped run) a b c da db dc live draining ≡ true
AddUp-workers_pass run a b c da db dc live draining h k =
    let left =
      NoneLeft-stopped run live draining (AddUp-draining-le a b c da db dc live draining h) k in
    ground (arith, left, h.live_sum, h.draining_sum, h.draining_a, h.draining_b, h.draining_c)

source_error_passes-IsSourceError :
    (e : ReaderSourceErrorSnapshot) → source_error_passes e ≡ true → IsSourceError e
source_error_passes-IsSourceError e h = record {
  some_path = not_equal→differ e.relative_path "" (ground arith);
  relative = ground arith;
  inside = ground arith;
  some_message = not_equal→differ e.message "" (ground arith);
}

IsSourceError-source_error_passes :
    (e : ReaderSourceErrorSnapshot) → IsSourceError e → source_error_passes e ≡ true
IsSourceError-source_error_passes e h = ground (
  arith,
  differ→not_equal e.relative_path "" h.some_path,
  differ→not_equal e.message "" h.some_message,
  h.relative,
  h.inside,
)

decode_source_error-Yields : (value : Value) → Yields IsSourceError (decode_source_error value)
unfolding decode_source_error
decode_source_error-Yields value = Yields-any _ _ _ (λ members. Yields-any _ _ _ (λ category.
    Yields-any _ _ _ (λ operation. Yields-any _ _ _ (λ path.
      Yields-any _ _ _
        (λ message. Yields-accept _ source_error_passes _ (source_error_passes-IsSourceError _))))))

decode_present-Yields :
    (value : Value)
    → Yields (HoldsIfAny IsSourceError) (decode_source_error value >>= λ e. some (some e))
decode_present-Yields value =
    Yields-bind _ _ _ _ (decode_source_error-Yields value) (λ e h. Yields-pure _ _ h)

pub decode_source_errors-Yields :
    (value : Value) → Yields (HoldsIfAny IsSourceError) (decode_source_errors value)
unfolding decode_source_errors
decode_source_errors-Yields undefined = decode_present-Yields undefined
decode_source_errors-Yields null = Yields-pure _ _ tt
decode_source_errors-Yields (boolean b) = decode_present-Yields (boolean b)
decode_source_errors-Yields (number n) = decode_present-Yields (number n)
decode_source_errors-Yields (string s) = decode_present-Yields (string s)
decode_source_errors-Yields (array values) = decode_present-Yields (array values)
decode_source_errors-Yields (object members) = decode_present-Yields (object members)

read_operation-operation_name :
    (operation : SourceOperation)
    → read_operation (string (operation_name operation)) ≡ some operation
read_operation-operation_name glob = refl
read_operation-operation_name open_file = refl
read_operation-operation_name read = refl
read_operation-operation_name close = refl
read_operation-operation_name reader_close = refl

only_source : (c : ErrorCategory) → source ≡ c
only_source source = refl

decode_source_error-encode_source_error :
    (e : ReaderSourceErrorSnapshot)
    → IsSourceError e
    → decode_source_error (encode_source_error e) ≡ some e
unfolding decode_source_error exact_object property keys sort_keys insert_key same_keys wire_text
    ◌>>=◌
decode_source_error-encode_source_error e h =
    rw (read_operation-operation_name e.operation, only_source e.category)
      (accept-true source_error_passes e (IsSourceError-source_error_passes e h))

pub decode_source_errors-encode_optional :
    (o : Option ReaderSourceErrorSnapshot)
    → HoldsIfAny IsSourceError o
    → decode_source_errors (encode_optional encode_source_error o) ≡ some o
unfolding decode_source_errors ◌>>=◌
decode_source_errors-encode_optional none h = refl
decode_source_errors-encode_optional (some e) h = rw (decode_source_error-encode_source_error e h)
