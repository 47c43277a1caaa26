-- ===== src/Sentry/Tests/Requests.antt =====
-- The theorems on streams, requests and the node's own status at concrete inputs.
use valtrack.Base.{
  ℕ, ◌==◌, List, [], ◌∷◌, Bool, true, false, none, some, ok, ◌≡◌, refl, if◌then◌else◌,
}
use valtrack.Sentry.Wire.{Status, MetaDataV1}
use valtrack.Sentry.Stream.{Stream, read_request}
use valtrack.Sentry.ReqResp.{ReqResp, Bitvector64, set_bits_below, new_req_resp}
use valtrack.Sentry.ReqResp.LocalStatus.{BitLaws}

abbrev pub own_status : Status
own_status = record {
  fork_digest = 0x6a ∷ 0x95 ∷ 0xa1 ∷ 0xa9 ∷ [];
  finalized_root = [];
  finalized_epoch = 0;
  head_root = [];
  head_slot = 100;
}

abbrev pub newer_status : Status
newer_status = record own_status { head_slot = 132 }

abbrev pub foreign_status : Status
foreign_status = record own_status { fork_digest = 0 ∷ []; head_slot = 500 }

abbrev pub own_meta_data : MetaDataV1
own_meta_data = record { seq_number = 0; attnets = 255 ∷ []; syncnets = 0 ∷ [] }

abbrev pub served : ReqResp
served = record { meta_data = own_meta_data; status = some own_status }

-- A stream on which every call succeeds, and the peer sends `a` with the given code.
abbrev pub clear_stream : {A : Type 0} → ℕ → A → Stream A
clear_stream code a = record {
  read_deadline = none;
  write_deadline = none;
  code = ok code;
  rest = ok "rate limited";
  message = ok a;
  code_written = none;
  encoded = none;
  read_closed = none;
  write_closed = none;
  closed = none;
}

-- A bit vector kept as the list of the bits that are set.
unfoldable pub listed : List ℕ → ℕ → Bool
listed [] j = false
listed (i ∷ v) j = let rest = listed v j in if i == j then true else rest

abbrev pub index_list : Bitvector64
index_list = record { empty = []; bit_at = listed; set_bit = λ v i. i ∷ v }

index_list-BitLaws : BitLaws index_list
unfolding listed
index_list-BitLaws = record { bit_at-set_bit = λ v i j h. refl }

first_req_resp :
    new_req_resp index_list true
    ≡ ok (record {
      meta_data = record {
        seq_number = 0;
        attnets = set_bits_below index_list 64 [];
        syncnets = 0 ∷ [];
      };
      status = none;
    })
unfolding new_req_resp
first_req_resp = refl

request_read : (read_request (clear_stream 0 newer_status)).result ≡ ok newer_status
unfolding read_request
request_read = refl
