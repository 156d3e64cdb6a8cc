-- ===== src/Check/Details.antt =====
-- The details of each type of check (protocol/check/tcp.go, http.go, ping.go, plugin.go) and their
-- unmarshalling, which fails if a field does not fit.
use rackspace_monitoring_pol.Base.{ℕ, String, Bool, Option, none, some, List, ◌&&◌, if◌then◌else◌}
use rackspace_monitoring_pol.Base.Int.{ℤ}
use rackspace_monitoring_pol.Base.Dict.{Dict}
use rackspace_monitoring_pol.Json.{
  Value, get, as_string, as_bool, as_int, as_uint, as_list, is_object, fits_string, fits_bool,
  fits_int, fits_uint, fits_strings, fits_string_map,
}
use rackspace_monitoring_pol.Protocol.Checks.{as_string_map}

pub record TcpDetails : Type 0 where
  pub banner_match : String
  pub body_match : String
  pub port : ℕ
  pub send_body : String
  pub use_ssl : Bool

unfoldable pub decode_tcp : Value → Option TcpDetails
unfolding get
decode_tcp v =
    if is_object v
      && fits_string (get "banner_match" v)
      && fits_string (get "body_match" v)
      && fits_uint 64 (get "port" v)
      && fits_string (get "send_body" v)
      && fits_bool (get "ssl" v)
    then some (record {
      banner_match = as_string (get "banner_match" v);
      body_match = as_string (get "body_match" v);
      port = as_uint (get "port" v);
      send_body = as_string (get "send_body" v);
      use_ssl = as_bool (get "ssl" v);
    })
    else none

pub record HttpDetails : Type 0 where
  pub auth_password : String
  pub auth_user : String
  pub body : String
  pub body_matches : Dict String String
  pub follow_redirects : Bool
  pub headers : Dict String String
  pub include_body : Bool
  pub method : String
  pub url : String

unfoldable pub decode_http : Value → Option HttpDetails
unfolding get as_string_map
decode_http v =
    if is_object v
      && fits_string (get "auth_password" v)
      && fits_string (get "auth_user" v)
      && fits_string (get "body" v)
      && fits_string_map (get "body_matches" v)
      && fits_bool (get "follow_redirects" v)
      && fits_string_map (get "headers" v)
      && fits_bool (get "include_body" v)
      && fits_string (get "method" v)
      && fits_string (get "url" v)
    then some (record {
      auth_password = as_string (get "auth_password" v);
      auth_user = as_string (get "auth_user" v);
      body = as_string (get "body" v);
      body_matches = as_string_map (get "body_matches" v);
      follow_redirects = as_bool (get "follow_redirects" v);
      headers = as_string_map (get "headers" v);
      include_body = as_bool (get "include_body" v);
      method = as_string (get "method" v);
      url = as_string (get "url" v);
    })
    else none

pub record PingDetails : Type 0 where
  pub count : ℕ

-- `uint8`
unfoldable pub decode_ping : Value → Option PingDetails
unfolding get
decode_ping v =
    if is_object v && fits_uint 8 (get "count" v)
    then some (record { count = as_uint (get "count" v) })
    else none

pub record PluginDetails : Type 0 where
  pub file : String
  pub args : List String
  pub timeout : ℤ

unfoldable pub decode_plugin : Value → Option PluginDetails
unfolding get as_list fits_int
decode_plugin v =
    if is_object v
      && fits_string (get "file" v)
      && fits_strings (get "args" v)
      && fits_int (get "timeout" v)
    then some (record {
      file = as_string (get "file" v);
      args = as_list as_string (get "args" v);
      timeout = as_int (get "timeout" v);
    })
    else none

pub data Details : Type 0 where
  tcp : TcpDetails → Details
  http : HttpDetails → Details
  ping : PingDetails → Details
  plugin : PluginDetails → Details
