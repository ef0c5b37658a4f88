-- ===== src/HttpAdapter/Responses/Success.antt =====
-- Which responses to a poll succeed, and with what (`decodeResponse` of
-- frontend/src/adapters/HttpAdapter.ts).
use Prim.Native.String.{String}
use ingestion_lab_loadgen.Prelude.{
  Option, arith, both_branches, none, some, true, ℕ, ◌&&◌, ◌≡◌, ◌≤◌,
}
use ingestion_lab_loadgen.HttpAdapter.Valid.RoundTrip.{
  decode_wire_snapshot-Yields, decode_wire_snapshot-encode_snapshot,
}
use ingestion_lab_loadgen.HttpAdapter.Json.Laws.{Yields, Yields-none}
use ingestion_lab_loadgen.HttpAdapter.Valid.{IsSnapshot}
use ingestion_lab_loadgen.HttpAdapter.Responses.{
  Response, decode_body, decode_response, is_json, is_success,
}
use ingestion_lab_loadgen.HttpAdapter.Wire.{WireSnapshot}
use ingestion_lab_loadgen.HttpAdapter.Encode.{encode_snapshot}
use ingestion_lab_loadgen.HttpAdapter.Json.{Value}
use ingestion_lab_loadgen.Prelude.{Bool-cases, and_elim, inl, inr}
use ingestion_lab_loadgen.HttpAdapter.Valid.{Holds}
use ingestion_lab_loadgen.HttpAdapter.Decode.{decode_wire_snapshot}

decode_body-Yields : (body : Option Value) → Yields IsSnapshot (decode_body body)
decode_body-Yields none = Yields-none IsSnapshot
decode_body-Yields (some value) = decode_wire_snapshot-Yields value

-- Whatever the response, what is read from it is valid.
pub decode_response-Yields : (response : Response) → Yields IsSnapshot (decode_response response)
unfolding decode_response
decode_response-Yields response =
    both_branches (Yields IsSnapshot) (is_success response.status && is_json response.content_type)
      _ none (decode_body-Yields response.body) (Yields-none IsSnapshot)

-- The response that carries a valid snapshot, with any status of success, is read as that snapshot.
pub decode_response-encode_snapshot :
    (status : ℕ) (header : String) (wire : WireSnapshot)
    → 200 ≤ status × status ≤ 299
    → is_json (some header) ≡ true
    → IsSnapshot wire
    → decode_response
        (record { status = status; content_type = some header; body = some (encode_snapshot wire) })
      ≡ some wire
unfolding decode_response
decode_response-encode_snapshot status header wire bounds json h =
    let success : is_success status ≡ true = ground (arith, bounds) in
    rw (success, json) (decode_wire_snapshot-encode_snapshot wire h)

-- The response succeeded with this snapshot: a status of success, JSON, and a body that decodes to it.
abbrev pub Succeeds : Option Response → WireSnapshot → Type 0
Succeeds none wire = ⊥
Succeeds (some response) wire =
    (200 ≤ response.status)
    × (response.status ≤ 299)
    × (is_json response.content_type ≡ true)
    × Holds (λ value. decode_wire_snapshot value ≡ some wire) response.body

decode_body-Holds :
    (body : Option Value) (wire : WireSnapshot)
    → decode_body body ≡ some wire
    → Holds (λ value. decode_wire_snapshot value ≡ some wire) body
decode_body-Holds none wire e = cc
decode_body-Holds (some value) wire e = e

Holds-decode_body :
    (body : Option Value) (wire : WireSnapshot)
    → Holds (λ value. decode_wire_snapshot value ≡ some wire) body
    → decode_body body ≡ some wire
Holds-decode_body none wire h = absurd h
Holds-decode_body (some value) wire h = h

pub decode_response-Succeeds :
    (response : Response) (wire : WireSnapshot)
    → decode_response response ≡ some wire
    → Succeeds (some response) wire
unfolding decode_response
decode_response-Succeeds response wire e =
    elim (Bool-cases (is_success response.status && is_json response.content_type)) [
      | inl t ↦
          let parts = and_elim (is_success response.status) _ t in
          (
            ground (arith, parts.0),
            ground (arith, parts.0),
            parts.1,
            decode_body-Holds response.body wire (ground (arith, e, t)),
          )
      | inr t ↦ absurd (ground (arith, e, t))
    ]

pub Succeeds-decode_response :
    (response : Response) (wire : WireSnapshot)
    → Succeeds (some response) wire
    → decode_response response ≡ some wire
unfolding decode_response
Succeeds-decode_response response wire (lower, upper, json, body) =
    let success : is_success response.status ≡ true = ground (arith, lower, upper) in
    rw (success, json) (Holds-decode_body response.body wire body)
