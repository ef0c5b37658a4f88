-- ===== src/HttpAdapter/Responses.antt =====
-- The reading of a response (`decodeResponse` and `decodeCommandError` of
-- frontend/src/adapters/HttpAdapter.ts).
pub mod Success
use Prim.Native.Char.{code}
use Prim.Native.String.{String}
use text.Mathlib.Text.{◌==◌ as str_eq}
use ingestion_lab_loadgen.Prelude.{
  Bool, List, Option, [], false, if◌then◌else◌, leb, map, none, some, true, ℕ, ◌&&◌, ◌+◌, ◌==◌,
  ◌||◌, ◌∷◌,
}
use ingestion_lab_loadgen.HttpAdapter.Wire.{WireSnapshot}
use ingestion_lab_loadgen.HttpAdapter.Json.{Value, object, property, string}
use ingestion_lab_loadgen.HttpAdapter.Decode.{decode_wire_snapshot}

-- What `fetch` gives: the status, the `Content-Type`, and what `json()` gives, none if it rejects.
pub record Response : Type 0 where
  pub status : ℕ
  pub content_type : Option String
  pub body : Option Value

-- The numbers of a text's characters.
abbrev pub codes : String → List ℕ
codes String.[] = []
codes (String.◌∷◌ c s) = code c ∷ codes s

-- `split(';', 1)[0]`
abbrev pub before_semicolon : List ℕ → List ℕ
before_semicolon [] = []
before_semicolon (c ∷ cs) = if c == 59 then [] else c ∷ before_semicolon cs

-- White space, of the characters that a header may have.
abbrev is_space : ℕ → Bool
is_space c = c == 32 || c == 160 || leb 9 c && leb c 13

abbrev pub trim_start : List ℕ → List ℕ
trim_start [] = []
trim_start (c ∷ cs) = let rest = trim_start cs in if is_space c then rest else c ∷ cs

abbrev pub push_unless_space : ℕ → List ℕ → List ℕ
push_unless_space c [] = if is_space c then [] else c ∷ []
push_unless_space c (d ∷ ds) = c ∷ d ∷ ds

abbrev pub trim_end : List ℕ → List ℕ
trim_end [] = []
trim_end (c ∷ cs) = push_unless_space c (trim_end cs)

abbrev to_lower_case : ℕ → ℕ
to_lower_case c = if leb 65 c && leb c 90 then c + 32 else c

abbrev same_codes : List ℕ → List ℕ → Bool
same_codes [] [] = true
same_codes (x ∷ xs) (y ∷ ys) = x == y && same_codes xs ys
same_codes _ _ = false

-- `mediaType === 'application/json'`
abbrev pub is_json : Option String → Bool
is_json none = false
is_json (some header) =
    same_codes (map to_lower_case (trim_end (trim_start (before_semicolon (codes header)))))
      (codes "application/json")

abbrev pub is_success : ℕ → Bool
is_success status = leb 200 status && leb status 299

abbrev pub decode_body : Option Value → Option WireSnapshot
decode_body none = none
decode_body (some value) = decode_wire_snapshot value

pub decode_response : Response → Option WireSnapshot
decode_response response =
    if is_success response.status && is_json response.content_type
    then decode_body response.body
    else none

abbrev error_text : Value → Option String
error_text (string s) = if str_eq s "" then none else some s
error_text other = none

-- `decodeCommandError`
abbrev pub decode_command_error : Option Value → Option String
decode_command_error (some (object members)) = error_text (property members "error")
decode_command_error (some other) = none
decode_command_error none = none
