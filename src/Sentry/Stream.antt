-- ===== src/Sentry/Stream.antt =====
-- The four functions of pkg/ethereum/reqresp.go that read and write one message of a stream.
-- A stream is libp2p's: what each call on it answers is given, and a run of the code records the
-- calls that it makes, in order.
pub mod Framing
use valtrack.Base.{
  ℕ, ◌==◌, String, List, [], ◌∷◌, ◌++◌, Option, none, some, Error, new, wrap, Result, ok, err,
  if◌then◌else◌,
}
use valtrack.Sentry.Wire.{Status, MetaDataV1}

-- What the code sends: a status, a number, or one of the two versions of the metadata.
pub data Payload : Type 0 where
  status_payload : Status → Payload
  number_payload : ℕ → Payload
  metadata_v0 : ℕ → List ℕ → Payload
  metadata_v1 : MetaDataV1 → Payload

-- The calls on a stream. `write_code` writes one byte, `read_code` reads one, and `encode` and
-- `decode` are the encoder's `EncodeWithMaxLength` and `DecodeWithMaxLength`.
pub data Call : Type 0 where
  set_read_deadline set_write_deadline read_code read_all decode close_read close_write close
        reset_stream :
      Call
  write_code : ℕ → Call
  encode : Payload → Call

-- The answers of a stream on which messages of type `A` are read; `none` is a nil error.
pub record Stream (A : Type 0) : Type 0 where
  pub read_deadline : Option Error
  pub write_deadline : Option Error
  pub code : Result ℕ
  pub rest : Result String
  pub message : Result A
  pub code_written : Option Error
  pub encoded : Option Error
  pub read_closed : Option Error
  pub write_closed : Option Error
  pub closed : Option Error

-- A run of code on a stream: the calls made and the result.
pub record Exchange (A : Type 0) : Type 0 where
  pub calls : List Call
  pub result : Result A

abbrev pub done : {A : Type 0} → A → Exchange A
done a = record { calls = []; result = ok a }

abbrev pub fail : {A : Type 0} → Error → Exchange A
fail e = record { calls = []; result = err e }

abbrev pub prefixed : {A : Type 0} → List Call → Exchange A → Exchange A
prefixed cs x = record x { calls = cs ++ x.calls }

abbrev pub continue_with : {A B : Type 0} → Result A → (A → Exchange B) → Exchange B
continue_with (ok a) f = f a
continue_with (err e) f = fail e

infixl 5 ◌>>=◌ ◌>>◌
abbrev pub ◌>>=◌ : {A B : Type 0} → Exchange A → (A → Exchange B) → Exchange B
x >>= f = prefixed x.calls (continue_with x.result f)

abbrev pub ◌>>◌ : {A B : Type 0} → Exchange A → Exchange B → Exchange B
x >> y = x >>= λ _. y

-- One call whose error is wrapped with a message and returned.
abbrev pub try_call : Call → String → Option Error → Exchange (Unit {0})
try_call c message none = record { calls = c ∷ []; result = ok tt }
try_call c message (some e) = record { calls = c ∷ []; result = err (wrap message e) }

-- One call that answers with a value or an error.
abbrev pub try_read : {A : Type 0} → Call → String → Result A → Exchange A
try_read c message (ok a) = record { calls = c ∷ []; result = ok a }
try_read c message (err e) = record { calls = c ∷ []; result = err (wrap message e) }

module _ {A : Type 0} where
  unfoldable pub read_request : Stream A → Exchange A
  read_request s = do
    try_call set_read_deadline "failed setting read deadline on stream" s.read_deadline
    a ← try_read decode "read request data" s.message
    try_call close_read "failed to close reading side of stream" s.read_closed
    done a

  -- The error that the peer sent in place of its response.
  unfoldable pub read_error : Stream A → Exchange A
  read_error s = do
    text ← try_read read_all "failed reading error data" s.rest
    fail (wrap "received error response" (new text))

  -- The payload behind the response code 0.
  unfoldable pub read_payload : Stream A → Exchange A
  read_payload s = do
    a ← try_read decode "read request data" s.message
    try_call close_read "failed to close reading side of stream" s.read_closed
    done a

  unfoldable pub read_response : Stream A → Exchange A
  unfolding read_payload read_error
  read_response s = do
    try_call set_read_deadline "failed setting read deadline on stream" s.read_deadline
    code ← try_read read_code "failed reading response code" s.code
    if code == 0 then read_payload s else read_error s

  unfoldable pub write_request : Stream A → Payload → Exchange (Unit {0})
  write_request s p = do
    try_call set_write_deadline "failed setting write deadline on stream" s.write_deadline
    try_call (encode p) "read sequence number" s.encoded
    try_call close_write "failed to close writing side of stream" s.write_closed

  unfoldable pub write_response : Stream A → Payload → Exchange (Unit {0})
  write_response s p = do
    try_call set_write_deadline "failed setting write deadline on stream" s.write_deadline
    try_call (write_code 0) "write success response code" s.code_written
    try_call (encode p) "read sequence number" s.encoded
    try_call close_write "failed to close writing side of stream" s.write_closed
