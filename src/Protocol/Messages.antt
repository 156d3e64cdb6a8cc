-- ===== src/Protocol/Messages.antt =====
-- protocol/messages.go: the parameters and results of the methods, as records, and their JSON.
-- A Decode… function of the source copies the frame's envelope and decodes its raw part; an absent
-- raw part leaves the struct at its zero value, as a null does.
use rackspace_monitoring_pol.Base.{
  ℕ, String, Bool, ◌&&◌, Option, none, some, List, [], ◌∷◌, if◌then◌else◌,
}
use rackspace_monitoring_pol.Base.Int.{ℤ}
use rackspace_monitoring_pol.Json.{
  Value, null, bool, num, str, arr, get, as_string, as_int, as_uint, as_list, from_list, object,
  fits_string, fits_int, is_object,
}
use rackspace_monitoring_pol.Protocol.Frame.{FrameMsg, empty_frame}
use rackspace_monitoring_pol.Protocol.Methods.{method_handshake_hello, method_heartbeat_post}
use rackspace_monitoring_pol.Protocol.Checks.{CheckIn, decode_check_ptr, encode_check_in}

-- `json.Unmarshal` is called if the raw part is there.
abbrev pub raw_or_null : Option Value → Value
raw_or_null none = null
raw_or_null (some v) = v

pub record Feature : Type 0 where
  pub name : String
  pub disabled : Bool

pub record HandshakeParameters : Type 0 where
  pub token : String
  pub agent_id : String
  pub agent_name : String
  pub process_version : String
  pub bundle_version : String
  pub zone_ids : List String
  pub features : List Feature

feature_value : Feature → Value
feature_value f = object (("name", str f.name) ∷ ("disabled", bool f.disabled) ∷ [])

unfoldable pub encode_handshake : HandshakeParameters → Value
unfolding from_list feature_value
encode_handshake p = object (
    ("token", str p.token)
    ∷ ("agent_id", str p.agent_id)
    ∷ ("agent_name", str p.agent_name)
    ∷ ("process_version", str p.process_version)
    ∷ ("bundle_version", str p.bundle_version)
    ∷ ("zone_ids", arr (from_list str p.zone_ids))
    ∷ ("features", arr (from_list feature_value p.features))
    ∷ [])

-- NewHandshakeRequest
unfoldable pub new_handshake_request : HandshakeParameters → FrameMsg
unfolding encode_handshake
new_handshake_request p = record empty_frame {
  version = "1";
  method = method_handshake_hello;
  raw_params = some (encode_handshake p);
}

pub record HandshakeResult : Type 0 where
  pub heartbeat_interval : ℕ
  pub entity_id : String
  pub channel : String

unfoldable pub decode_handshake_result : Option Value → HandshakeResult
unfolding get
decode_handshake_result r = record {
  heartbeat_interval = as_uint (get "heartbeat_interval" (raw_or_null r));
  entity_id = as_string (get "entity_id" (raw_or_null r));
  channel = as_string (get "channel" (raw_or_null r));
}

-- NewHeartbeatRequest, at the given time
unfoldable pub new_heartbeat_request : ℤ → FrameMsg
new_heartbeat_request now = record empty_frame {
  version = "1";
  method = method_heartbeat_post;
  raw_params = some (object (("timestamp", num now) ∷ []));
}

-- DecodeHeartbeatResponse: the timestamp of the result
unfoldable pub decode_heartbeat_result : Option Value → ℤ
unfolding get
decode_heartbeat_result r = as_int (get "timestamp" (raw_or_null r))

pub record PollerPrepareManifest : Type 0 where
  pub action : String
  pub id : String
  pub check_type : String
  pub entity_id : String
  pub zone_id : String

unfoldable pub decode_manifest : Value → PollerPrepareManifest
unfolding get
decode_manifest v = record {
  action = as_string (get "action" v);
  id = as_string (get "check_id" v);
  check_type = as_string (get "type" v);
  entity_id = as_string (get "entity_id" v);
  zone_id = as_string (get "zone_id" v);
}

unfoldable pub encode_manifest : PollerPrepareManifest → Value
encode_manifest m = object (
    ("action", str m.action)
    ∷ ("check_id", str m.id)
    ∷ ("type", str m.check_type)
    ∷ ("entity_id", str m.entity_id)
    ∷ ("zone_id", str m.zone_id)
    ∷ [])

pub record PollerPrepareStartParams : Type 0 where
  pub zone_id : String
  pub version : ℤ
  pub manifest : List PollerPrepareManifest

-- DecodePollerPrepareStartRequest
unfoldable pub decode_prepare_start : Option Value → PollerPrepareStartParams
unfolding get as_list decode_manifest
decode_prepare_start r = record {
  zone_id = as_string (get "zone_id" (raw_or_null r));
  version = as_int (get "version" (raw_or_null r));
  manifest = as_list decode_manifest (get "manifest" (raw_or_null r));
}

unfoldable pub encode_prepare_start : PollerPrepareStartParams → Value
unfolding from_list encode_manifest
encode_prepare_start p = object (
    ("zone_id", str p.zone_id)
    ∷ ("version", num p.version)
    ∷ ("manifest", arr (from_list encode_manifest p.manifest))
    ∷ [])

pub record PollerPrepareBlockParams : Type 0 where
  pub zone_id : String
  pub version : ℤ
  pub block : List (Option CheckIn)

-- DecodePollerPrepareBlockRequest
unfoldable pub decode_prepare_block : Option Value → PollerPrepareBlockParams
unfolding get as_list decode_check_ptr
decode_prepare_block r = record {
  zone_id = as_string (get "zone_id" (raw_or_null r));
  version = as_int (get "version" (raw_or_null r));
  block = as_list decode_check_ptr (get "block" (raw_or_null r));
}

-- The endpoint's blocks hold no nil pointers.
abbrev pub check_ptr_value : Option CheckIn → Value
check_ptr_value none = null
check_ptr_value (some c) = encode_check_in c

unfoldable pub encode_prepare_block : PollerPrepareBlockParams → Value
unfolding from_list encode_check_in
encode_prepare_block p = object (
    ("zone_id", str p.zone_id)
    ∷ ("version", num p.version)
    ∷ ("block", arr (from_list check_ptr_value p.block))
    ∷ [])

pub record PollerPrepareEndParams : Type 0 where
  pub zone_id : String
  pub version : ℤ
  pub directive : String

-- DecodePollerPrepareEndRequest
unfoldable pub decode_prepare_end : Option Value → PollerPrepareEndParams
unfolding get
decode_prepare_end r = record {
  zone_id = as_string (get "zone_id" (raw_or_null r));
  version = as_int (get "version" (raw_or_null r));
  directive = as_string (get "directive" (raw_or_null r));
}

unfoldable pub encode_prepare_end : PollerPrepareEndParams → Value
encode_prepare_end p =
    object (
      ("zone_id", str p.zone_id) ∷ ("version", num p.version) ∷ ("directive", str p.directive) ∷ [])

pub record PollerCommitParams : Type 0 where
  pub zone_id : String
  pub version : ℤ

-- DecodePollerCommitRequest
unfoldable pub decode_commit : Option Value → PollerCommitParams
unfolding get
decode_commit r = record {
  zone_id = as_string (get "zone_id" (raw_or_null r));
  version = as_int (get "version" (raw_or_null r));
}

unfoldable pub encode_commit : PollerCommitParams → Value
encode_commit p = object (("zone_id", str p.zone_id) ∷ ("version", num p.version) ∷ [])

-- PollerPrepareResult, and PollerCommitResult, which has the same fields
pub record PollerPrepareResult : Type 0 where
  pub zone_id : String
  pub version : ℤ
  pub status : String
  pub details : String

unfoldable pub encode_prepare_result : PollerPrepareResult → Value
encode_prepare_result p = object (
    ("zone_id", str p.zone_id)
    ∷ ("version", num p.version)
    ∷ ("status", str p.status)
    ∷ ("details", str p.details)
    ∷ [])

-- `json.Unmarshal(raw, result)` with its error looked at: nothing to read, or a value that does not
-- fit, is an error.
unfoldable pub decode_prepare_result : Option Value → Option PollerPrepareResult
unfolding get fits_int
decode_prepare_result none = none
decode_prepare_result (some v) =
    if is_object v
      && fits_string (get "zone_id" v)
      && fits_int (get "version" v)
      && fits_string (get "status" v)
      && fits_string (get "details" v)
    then some (record {
      zone_id = as_string (get "zone_id" v);
      version = as_int (get "version" v);
      status = as_string (get "status" v);
      details = as_string (get "details" v);
    })
    else none
