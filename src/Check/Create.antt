-- ===== src/Check/Create.antt =====
-- check/unmarshal.go and the constructors that it calls (NewTCPCheck, NewHTTPCheck, NewPingCheck and
-- NewPluginCheck of check/check_*.go), with the durations of check/check.go.
use rackspace_monitoring_pol.Base.{◌*◌, ◌%◌, ◌^◌, String, Option, none, some, str_eq, if◌then◌else◌}
use rackspace_monitoring_pol.Base.Int.{ℤ}
use rackspace_monitoring_pol.Base.Words.{signed}
use rackspace_monitoring_pol.Base.Dict.{lookup, string_eq}
use rackspace_monitoring_pol.Base.Outcome.{Outcome, ok, panic}
use rackspace_monitoring_pol.Json.{Value}
use rackspace_monitoring_pol.Protocol.Checks.{CheckIn}
use rackspace_monitoring_pol.Check.Details.{
  Details, tcp, http, ping, plugin, decode_tcp, decode_http, decode_ping, decode_plugin,
}

pub record Check : Type 0 where
  pub check_in : CheckIn
  pub details : Details

-- The four constructors are alike: the details are a pointer, and nil is a panic.
unfoldable pub with_details {ℓ} :
    {D : Type ℓ} → (Value → Option D) → (D → Details) → CheckIn → Outcome (Option Check)
with_details decode make c = elim c.raw_details [
  | none ↦ panic
  | some raw ↦ elim (decode raw) [
    | none ↦ ok none
    | some d ↦ ok (some (record { check_in = c; details = make d }))
  ]
]

-- NewCheckParsed, with resolveCheckType; `none` is an error.
unfoldable pub new_check_parsed : CheckIn → Outcome (Option Check)
unfolding with_details decode_tcp decode_http decode_ping decode_plugin
new_check_parsed c =
    if str_eq c.check_type "remote.tcp"
    then with_details decode_tcp tcp c
    else if str_eq c.check_type "remote.http"
    then with_details decode_http http c
    else if str_eq c.check_type "remote.ping"
    then with_details decode_ping ping c
    else if str_eq c.check_type "agent.plugin"
    then with_details decode_plugin plugin c
    else ok none

-- Base.GetTargetIP; `none` is ErrInvalidTargetIP
unfoldable pub get_target_ip : CheckIn → Option String
unfolding lookup
get_target_ip c = elim c.target_alias [
  | some alias ↦ lookup alias c.ip_addresses
  | none ↦ elim c.target_hostname [
    | none ↦ none
    | some host ↦ if str_eq host "" then none else some host
  ]
]

-- GetTimeoutDuration and GetWaitPeriod, in nanoseconds: the products wrap.
unfoldable pub get_timeout_duration : CheckIn → ℤ
get_timeout_duration c = signed (c.timeout * 1000000000 % 2 ^ 64)

unfoldable pub get_wait_period : CheckIn → ℤ
get_wait_period c = signed (c.period * 1000000000 % 2 ^ 64)
