-- ===== src/Sentry/ReqResp/Registered.antt =====
-- What reqresp.go does around a handler that it registers.
use Prim.Native.String.{◌++◌ as ◌^^◌}
use valtrack.Base.{String, List, [], ◌∷◌, ◌++◌, Option, none, some, new, Result, ok, err}
use valtrack.Sentry.Stream.{Exchange, Call, reset_stream}

-- `suffix` is the encoder's.
unfoldable pub protocol_id : String → String → String
protocol_id suffix topic = topic ^^ suffix

-- What the host's peer store holds under AgentVersion: nothing, a value that is no string, or a string.
unfoldable pub get_agent_version : Result (Option String) → Result String
get_agent_version (err e) = err e
get_agent_version (ok none) = err (new "agent version not found or invalid")
get_agent_version (ok (some v)) = ok v

-- The agent version that is logged, and the calls on the stream. The handler's error is only logged, and
-- the stream is reset on every way out.
unfoldable pub wrap_stream_handler :
    Result (Option String) → Exchange (Unit {0}) → String × List Call
unfolding get_agent_version
wrap_stream_handler version x =
    (elim (get_agent_version version) [ ok v ↦ v | err e ↦ "n.a." ], x.calls ++ (reset_stream ∷ []))
