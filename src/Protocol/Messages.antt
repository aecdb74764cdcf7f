-- ===== src/Protocol/Messages.antt =====
-- internal/protocol/messages.go: the messages' fields that are checked, and the checks.
use text.Mathlib.Text.{◌==◌ as str_eq}
use eregion.Prelude.{ℕ, Bool, not, ◌||◌, List, [], ◌∷◌, Option, ltb, ◌==◌, String}
use eregion.Prelude.Int.{ℤ, pos, ltb_ℤ}
use eregion.Prelude.Results.{first_error}

pub record Hello : Type 0 where
  pub type' : String
  pub protocol : String
  pub protocol_version : ℕ
  pub worker_id : String
  pub generation : ℕ

pub record Ready : Type 0 where
  pub type' : String
  pub protocol : String
  pub protocol_version : ℕ
  pub worker_id : String
  pub generation : ℕ
  pub pid : ℤ

pub record RequestEnvelope : Type 0 where
  pub type' : String
  pub version : ℕ
  pub id : String
  pub body : List ℕ

pub record ResponseEnvelope : Type 0 where
  pub type' : String
  pub version : ℕ
  pub id : String
  pub status : ℕ
  pub body : List ℕ

pub data Invalid : Type 0 where
  unexpected_type unexpected_protocol unsupported_version worker_id_required : Invalid
  worker_id_mismatch generation_mismatch invalid_pid id_mismatch invalid_status : Invalid

abbrev pub differ : String → String → Bool
differ s t = not (str_eq s t)

abbrev pub differ_number : ℕ → ℕ → Bool
differ_number a b = not (a == b)

abbrev pub hello_checks : Hello → List (Bool × Invalid)
hello_checks h =
    (differ h.type' "hello", unexpected_type)
    ∷ (differ h.protocol "eregion", unexpected_protocol)
    ∷ (differ_number h.protocol_version 1, unsupported_version)
    ∷ (str_eq h.worker_id "", worker_id_required)
    ∷ []

unfoldable pub validate_hello : Hello → Option Invalid
validate_hello h = first_error (hello_checks h)

abbrev pub ready_checks : Ready → String → ℕ → List (Bool × Invalid)
ready_checks r worker_id generation =
    (differ r.type' "ready", unexpected_type)
    ∷ (differ r.protocol "eregion", unexpected_protocol)
    ∷ (differ_number r.protocol_version 1, unsupported_version)
    ∷ (differ r.worker_id worker_id, worker_id_mismatch)
    ∷ (differ_number r.generation generation, generation_mismatch)
    ∷ (not (ltb_ℤ (pos 0) r.pid), invalid_pid)
    ∷ []

unfoldable pub validate_ready : Ready → String → ℕ → Option Invalid
validate_ready r worker_id generation = first_error (ready_checks r worker_id generation)

abbrev pub response_checks : ResponseEnvelope → String → List (Bool × Invalid)
response_checks r id =
    (differ r.type' "response", unexpected_type)
    ∷ (differ_number r.version 1, unsupported_version)
    ∷ (differ r.id id, id_mismatch)
    ∷ (ltb r.status 100 || ltb 599 r.status, invalid_status)
    ∷ []

unfoldable pub validate_response : ResponseEnvelope → String → Option Invalid
validate_response r id = first_error (response_checks r id)
