-- ===== src/Run/Http.antt =====
-- Run of check/check_http.go. What the network and the clock (in milliseconds) give is an argument.
use Prim.Native.String.{len, ◌++◌ as text_append}
use rackspace_monitoring_pol.Base.{
  ℕ, ◌/◌, String, Bool, false, not, Option, none, some, List, [], ◌∷◌, ◌++◌, ◌⊎◌, inl, inr, str_eq,
  ltb, ◌==◌, if◌then◌else◌,
}
use rackspace_monitoring_pol.Base.Int.{ℤ, pos, ◌-ℤ◌}
use rackspace_monitoring_pol.Base.Words.{wrap64}
use rackspace_monitoring_pol.Base.StatusLine.{new_status_line, add_value, add_option, to_text}
use rackspace_monitoring_pol.Base.Dict.{Dict}
use rackspace_monitoring_pol.Base.Outcome.{Outcome}
use rackspace_monitoring_pol.Protocol.Checks.{CheckIn}
use rackspace_monitoring_pol.Check.Details.{HttpDetails}
use rackspace_monitoring_pol.Check.Create.{get_target_ip}
use rackspace_monitoring_pol.Results.{
  int, text, metric_number, metric_string, Metric, new_metric, Result, add_metric, add_metrics,
  new_result, ResultSet,
}
use rackspace_monitoring_pol.Run.{Regexp, Attempt, going, failed, refused, crashed, ◌>>=◌, complete}
use rackspace_monitoring_pol.Run.Tls.{ConnectionState, text_metric, number_metric, add_tls_metrics}

-- net.SplitHostPort of the URL's host.
pub data HostPort : Type 0 where
  host_port : String → String → HostPort
  missing_port : HostPort
  bad_address : String → HostPort

-- The address to connect to: the host's port or the default of the scheme, and the target's address if
-- the check has one. An error of SplitHostPort ends the run.
unfoldable pub http_target : HostPort → String → String → CheckIn → String ⊎ (String × String)
unfolding get_target_ip
http_target (bad_address e) scheme parsed_host c = inl e
http_target (host_port host port) scheme parsed_host c =
    inr (elim (get_target_ip c) [ none ↦ host | some ip ↦ if str_eq ip "" then host else ip ], port)
http_target missing_port scheme parsed_host c = inr (
  elim (get_target_ip c) [
    | none ↦ parsed_host
    | some ip ↦ if str_eq ip "" then parsed_host else ip
  ],
  if str_eq scheme "http" then "80" else "443",
)

-- The callbacks of the client's trace.
pub data Traced : Type 0 where
  got_first_response_byte : ℤ → Traced
  connect_done : ℤ → Traced

pub record Response : Type 0 where
  pub status_code : ℕ
  pub body : String ⊎ String
  pub tls : Option ConnectionState

-- An error of NewRequest, the callbacks during the request, and its response or an error.
pub record HttpInput : Type 0 where
  pub request_error : Option String
  pub traced : List Traced
  pub response : Option Response
  pub started : ℤ
  pub ended : ℤ

abbrev pub max_http_response_body_length : ℕ
max_http_response_body_length = 524288

abbrev pub milliseconds : String → ℤ → Metric
milliseconds name n = new_metric name "" metric_number (int n) "milliseconds"

-- The times of the callbacks, since the start.
unfoldable pub trace_metrics : List Traced → List Metric
trace_metrics [] = []
trace_metrics (got_first_response_byte n ∷ ts) = milliseconds "tt_firstbyte" n ∷ trace_metrics ts
trace_metrics (connect_done n ∷ ts) = milliseconds "tt_connect" n ∷ trace_metrics ts

-- The metric of one family of status codes.
unfoldable pub family_metric : String → ℕ → ℕ → Metric
family_metric name family code =
    number_metric name (int (pos (if code / 100 == family then 1 else 0)))

unfoldable pub truncated : String → ℕ
truncated body = if ltb max_http_response_body_length (len body) then 1 else 0

-- `itoa` prints an integer, `now` is the time in seconds.
module _ (rx : Regexp) (lower : String → String) (itoa : ℤ → String) (now : ℤ)
    (d : HttpDetails) where
  open rx use {compile, find_submatch}

  -- The metric of the first match, or a crash if the match has no such part.
  abbrev pub body_part : String → String → Option String → Result → Attempt Result
  body_part name unit none r = crashed
  body_part name unit (some s) r =
      going (add_metric (new_metric name "" metric_string (text s) unit) r)

  -- The whole match, m[0].
  abbrev pub whole : List String → Option String
  whole [] = none
  whole (s ∷ m) = some s

  -- The first group, m[1].
  abbrev pub group : List String → Option String
  group [] = none
  group (s ∷ []) = none
  group (s ∷ (g ∷ m)) = some g

  unfoldable pub match_pattern :
      (List String → Option String) → String → String → String → String → Result → Attempt Result
  unfolding add_metric
  match_pattern part name unit pattern body r = elim (compile pattern) [
    | inl e ↦ failed e r
    | inr re ↦ elim (find_submatch re body) [
      | none ↦ going (add_metric (new_metric name "" metric_string (text "") unit) r)
      | some m ↦ body_part name unit (part m) r
    ]
  ]

  unfoldable pub match_main : String → Result → Attempt Result
  unfolding match_pattern
  match_main body r =
      if str_eq d.body "" then going r else match_pattern whole "body_match" "string" d.body body r

  -- The loop over body_matches, in the order of the iteration.
  unfoldable pub match_each : Dict String String → String → Result → Attempt Result
  unfolding match_pattern
  match_each [] body r = going r
  match_each ((key, pattern) ∷ ms) body r =
      match_pattern group (text_append "body_match_" key) "" pattern body r >>= match_each ms body

  unfoldable pub code_metrics : ℕ → List Metric
  unfolding family_metric
  code_metrics code =
      family_metric "code_100" 1 code
      ∷ family_metric "code_200" 2 code
      ∷ family_metric "code_300" 3 code
      ∷ family_metric "code_400" 4 code
      ∷ family_metric "code_500" 5 code
      ∷ text_metric "code" (itoa (pos code))
      ∷ []

  unfoldable pub size_metrics : ℤ → String → List Metric
  unfolding truncated
  size_metrics elapsed body =
      milliseconds "duration" elapsed
      ∷ new_metric "bytes" "" metric_number (int (pos (len body))) "bytes"
      ∷ new_metric "truncated" "" metric_number (int (pos (truncated body))) "bool"
      ∷ (if d.include_body then text_metric "body" body ∷ [] else [])

  -- The status line, `tls_error` if the certificate was not verified.
  unfoldable pub status_line : ℕ → ℤ → String → Bool → String
  unfolding add_option add_value to_text truncated
  status_line code elapsed body tls_error =
      let start = if tls_error then add_option "sslerror" new_status_line else new_status_line in
      to_text (
        add_value "truncated" (itoa (pos (truncated body))) (
          add_value "bytes" (itoa (pos (len body)))
            (add_value "duration" (itoa elapsed) (add_value "code" (itoa (pos code)) start))))

  unfoldable pub finish_http : ℕ → Option ConnectionState → ℤ → String → Result → Result × String
  unfolding code_metrics size_metrics add_metrics add_tls_metrics status_line
  finish_http code tls elapsed body r =
      let measured = add_metrics (code_metrics code ++ size_metrics elapsed body) r in
      elim tls [
        | none ↦ (measured, status_line code elapsed body false)
        | some s ↦
            let secured = add_tls_metrics lower now s measured in
            (secured.0, status_line code elapsed body (not (secured.1)))
      ]

  unfoldable pub match_response : String → Result → Attempt Result
  unfolding match_main match_each
  match_response body r = match_main body r >>= match_each d.body_matches body

  -- The run from the request on.
  unfoldable pub attempt_http : HttpInput → Attempt (Result × String)
  unfolding new_result add_metrics trace_metrics match_response finish_http wrap64 ◌-ℤ◌
  attempt_http io = elim io.request_error [
    | some e ↦ failed e (new_result [])
    | none ↦
        let traced = add_metrics (trace_metrics io.traced) (new_result []) in
        elim io.response [
          | none ↦ refused "connection refused" traced
          | some resp ↦ elim resp.body [
            | inl e ↦ failed e traced
            | inr body ↦ match_response body traced >>= λ r.
                going
                  (finish_http resp.status_code resp.tls (wrap64 (io.ended -ℤ io.started)) body r)
          ]
        ]
  ]

  unfoldable pub run_http {ℓ} : {C : Type ℓ} → HttpInput → C → Outcome (ResultSet C)
  unfolding attempt_http
  run_http io check = complete check (attempt_http io)
