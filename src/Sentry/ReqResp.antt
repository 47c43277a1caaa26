-- ===== src/Sentry/ReqResp.antt =====
-- pkg/ethereum/reqresp.go: the node's own status and metadata, the handlers of the requests that peers
-- send, and the requests that the node sends. `host.NewStream` is an argument: a stream, or its error.
pub mod LocalStatus
pub mod Handlers
pub mod Registered
use valtrack.Base.{
  ℕ, zero, suc, ◌==◌, String, List, [], ◌∷◌, ◌++◌, Bool, true, false, ◌&&◌, not, Option, none, some,
  Error, new, wrap, Result, ok, err, Outcome, returns, panics, if◌then◌else◌, is_none,
}
use valtrack.Sentry.Wire.{Wire, Status, MetaDataV1}
use valtrack.Sentry.Peerstore
use valtrack.Sentry.Peerstore.{Peerstore}
use valtrack.Sentry.Stream.{
  Stream, Exchange, Call, close, Payload, status_payload, number_payload, metadata_v0, metadata_v1,
  done, fail, prefixed, continue_with, try_call, ◌>>=◌, ◌>>◌, read_request, read_response,
  write_request, write_response,
}

-- `metaData` is set when the value is made and is never nil.
pub record ReqResp : Type 0 where
  pub meta_data : MetaDataV1
  pub status : Option Status

-- go-bitfield's `Bitvector64`, whose values are byte slices.
pub record Bitvector64 : Type 0 where
  pub empty : List ℕ
  pub bit_at : List ℕ → ℕ → Bool
  pub set_bit : List ℕ → ℕ → List ℕ

-- `for i := 0; i < n; i++ { v.SetBitAt(i, true) }`
unfoldable pub set_bits_below : Bitvector64 → ℕ → List ℕ → List ℕ
set_bits_below B zero v = v
set_bits_below B (suc n) v = B.set_bit (set_bits_below B n v) n

-- The record is nil where `cfg` is.
unfoldable pub new_req_resp : Bitvector64 → Bool → Result ReqResp
unfolding set_bits_below
new_req_resp B cfg_given =
    if cfg_given
    then ok (record {
      meta_data = record {
        seq_number = 0;
        attnets = set_bits_below B 64 B.empty;
        syncnets = 0 ∷ [];
      };
      status = none;
    })
    else err (new "req resp server config must not be nil")

-- `bytes.Equal`
unfoldable pub bytes_equal : List ℕ → List ℕ → Bool
bytes_equal [] [] = true
bytes_equal (x ∷ xs) (y ∷ ys) = x == y && bytes_equal xs ys
bytes_equal _ _ = false

-- The copy is a value of its own: no byte of it is shared.
unfoldable pub cpy_status : ReqResp → Option Status
cpy_status r = elim r.status [
  | none ↦ none
  | some st ↦ some (record {
    fork_digest = st.fork_digest;
    finalized_root = st.finalized_root;
    finalized_epoch = st.finalized_epoch;
    head_root = st.head_root;
    head_slot = st.head_slot;
  })
]

unfoldable pub same_status : Status → Status → Bool
same_status a b =
    bytes_equal a.fork_digest b.fork_digest
    && bytes_equal a.finalized_root b.finalized_root
    && a.finalized_epoch == b.finalized_epoch
    && bytes_equal a.head_root b.head_root
    && a.head_slot == b.head_slot

unfoldable pub set_status : Status → ReqResp → ReqResp
unfolding same_status
set_status status r = elim r.status [
  | none ↦ record r { status = some status }
  | some old ↦
      if not (bytes_equal old.fork_digest status.fork_digest)
      then r
      else if same_status old status
      then r
      else record r { status = some status }
]

-- `RegisterHandlers` checks the status, then registers a handler for each of the topics.
pub data Topic : Type 0 where
  ping_v1 goodbye_v1 status_v1 metadata_topic_v1 metadata_topic_v2 : Topic

unfoldable pub register_handlers : ReqResp → Result (List Topic)
register_handlers r =
    if is_none r.status
    then err (new "chain status is nil")
    else ok (ping_v1 ∷ goodbye_v1 ∷ status_v1 ∷ metadata_topic_v1 ∷ metadata_topic_v2 ∷ [])

-- `return stream.Close()`
abbrev pub closing : {A : Type 0} → Stream A → Exchange (Unit {0})
closing s = elim s.closed [
  | none ↦ record { calls = close ∷ []; result = ok tt }
  | some e ↦ record { calls = close ∷ []; result = err e }
]

-- `if err := …; err != nil { return fmt.Errorf("message: %w", err) }`
abbrev pub wrapping : {A : Type 0} → String → Exchange A → Exchange A
wrapping message x = record x {
  result = elim x.result [ ok a ↦ ok a | err e ↦ err (wrap message e) ];
}

unfoldable pub goodbye_handler : Stream ℕ → Exchange (Unit {0})
goodbye_handler s = do wrapping "read goodbye sequence number" (read_request s); closing s

unfoldable pub ping_handler : ReqResp → Stream ℕ → Exchange (Unit {0})
ping_handler r s = do
  wrapping "read ping sequence number" (read_request s)
  wrapping "write ping response" (write_response s (number_payload r.meta_data.seq_number))
  closing s

unfoldable pub metadata_v1_handler : ReqResp → Stream (Unit {0}) → Exchange (Unit {0})
metadata_v1_handler r s = do
  wrapping "write meta data v1"
      (write_response s (metadata_v0 r.meta_data.seq_number r.meta_data.attnets))
  closing s

unfoldable pub metadata_v2_handler : ReqResp → Stream (Unit {0}) → Exchange (Unit {0})
metadata_v2_handler r s = do
  wrapping "write metadata response" (write_response s (metadata_v1 r.meta_data))
  closing s

-- What `statusHandler` does once the peer's status is recorded.
unfoldable pub status_reply : ReqResp → Stream Status → Exchange (Unit {0})
status_reply r s = elim (cpy_status r) [
  | none ↦ fail (new "local status is nil")
  | some resp ↦ do
    wrapping "write status response" (write_response s (status_payload resp))
    closing s
]

module _ {W : Wire} where
  -- The handler writes to the peer store, which panics for a peer that it does not hold.
  unfoldable pub status_handler :
      ReqResp
      → String
      → ℕ
      → Stream Status
      → Peerstore W
      → Outcome (Exchange (Unit {0}) × Peerstore W)
  unfolding status_reply
  status_handler r pid now s store = elim (read_request s).result [
    | err e ↦ returns (
      record { calls = (read_request s).calls; result = err (wrap "read status request" e) },
      store,
    )
    | ok req ↦ elim (Peerstore.set_status pid req now store) [
      | panics m ↦ panics m
      | returns store' ↦ returns (prefixed (read_request s).calls (status_reply r s), store')
    ]
  ]

-- A request: open a stream, run the body, and close the stream on every way out (`defer`).
abbrev pub on_stream :
    {A B : Type 0} → Result (Stream A) → (Error → Error) → (Stream A → Exchange B) → Exchange B
on_stream (err e) f body = fail (f e)
on_stream (ok s) f body = record { calls = (body s).calls ++ close ∷ []; result = (body s).result }

unfoldable pub goodbye : Result (Stream (Unit {0})) → ℕ → Exchange (Unit {0})
goodbye stream code =
    on_stream stream (wrap "failed to open goodbye stream to peer")
      λ s. wrapping "write goodbye request" (write_request s (number_payload code))

unfoldable pub status_body : ReqResp → Stream Status → Exchange Status
status_body r s = elim (cpy_status r) [
  | none ↦ fail (new "status unknown")
  | some req ↦ do
    wrapping "write status request" (write_request s (status_payload req))
    wrapping "read status response" (read_response s)
]

unfoldable pub request_status : ReqResp → Result (Stream Status) → Exchange Status
unfolding status_body
request_status r stream = on_stream stream (λ e. e) (status_body r)

unfoldable pub ping : ReqResp → Result (Stream ℕ) → Exchange (Unit {0})
ping r stream = on_stream stream (wrap "failed to open ping stream to peer") λ s. do
  wrapping "write ping request" (write_request s (number_payload r.meta_data.seq_number))
  wrapping "read ping response" (read_response s)
  done tt

unfoldable pub request_meta_data : Result (Stream MetaDataV1) → Exchange MetaDataV1
request_meta_data stream =
    on_stream stream (wrap "failed to open metadata stream to peer")
      λ s. wrapping "read ping response" (read_response s)
