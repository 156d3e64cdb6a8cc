-- ===== src/Protocol/Frame.antt =====
-- protocol/frame.go: the envelope of every message. A typed request of the source embeds FrameMsg
-- and shadows its raw parameters; on the wire it is a FrameMsg whose `params` are those encoded.
use rackspace_monitoring_pol.Base.{ℕ, ◌+◌, ◌%◌, ◌^◌, String, Option, none, some}
use rackspace_monitoring_pol.Base.Outcome.{Outcome, ok, panic}
use rackspace_monitoring_pol.Json.{Value}

pub record Error : Type 0 where
  pub code : ℕ
  pub message : String

pub record FrameMsg : Type 0 where
  pub version : String
  pub id : ℕ
  pub target : String
  pub source : String
  pub method : String
  pub error : Option Error
  pub raw_params : Option Value
  pub raw_result : Option Value

abbrev pub protocol_version : String
protocol_version = "1"

-- `&FrameMsg{}`
abbrev pub empty_frame : FrameMsg
empty_frame = record {
  version = "";
  id = 0;
  target = "";
  source = "";
  method = "";
  error = none;
  raw_params = none;
  raw_result = none;
}

-- The id, the addresses, the version and the error are those of the request; the method stays.
unfoldable pub set_response_frame_msg : FrameMsg → FrameMsg → FrameMsg
set_response_frame_msg f source = record f {
  id = source.id;
  source = source.source;
  target = source.target;
  version = source.version;
  error = source.error;
}

-- atomic.AddUint64: the new sequence number, which wraps, and the frame that carries it.
unfoldable pub set_id : ℕ → FrameMsg → ℕ × FrameMsg
set_id seq f = let next : ℕ = (seq + 1) % 2 ^ 64 in (next, record f { id = next })

abbrev pub set_target : String → FrameMsg → FrameMsg
set_target t f = record f { target = t }

abbrev pub set_source : String → FrameMsg → FrameMsg
set_source s f = record f { source = s }

-- The common start of the New…Response functions: `source` is a pointer, and nil is a panic.
unfoldable pub respond_to : Option FrameMsg → Outcome FrameMsg
unfolding set_response_frame_msg
respond_to none = panic
respond_to (some source) = ok (set_response_frame_msg empty_frame source)

-- NewErrorResponse
unfoldable pub new_error_response : FrameMsg → ℕ → String → FrameMsg
unfolding set_response_frame_msg
new_error_response source code message = record (set_response_frame_msg empty_frame source) {
  error = some (record { code = code; message = message });
}
