-- ===== src/Run/Tcp.antt =====
-- Run of check/check_tcp.go, after the address was made.
use rackspace_monitoring_pol.Base.{
  ℕ, ◌⊎◌, inl, inr, String, Option, none, some, [], ◌∷◌, str_eq, if◌then◌else◌,
}
use rackspace_monitoring_pol.Base.Int.{ℤ, ◌-ℤ◌}
use rackspace_monitoring_pol.Base.Words.{wrap64}
use rackspace_monitoring_pol.Base.Text.{crop}
use rackspace_monitoring_pol.Base.Outcome.{Outcome}
use rackspace_monitoring_pol.Check.Details.{TcpDetails}
use rackspace_monitoring_pol.Results.{
  int, metric_number, Metric, new_metric, Result, add_metric, new_result, ResultSet, status_success,
}
use rackspace_monitoring_pol.Run.{Regexp, Attempt, going, failed, crashed, ◌>>=◌, complete}
use rackspace_monitoring_pol.Run.Tls.{ConnectionState, text_metric, add_tls_metrics}

abbrev pub max_tcp_banner_length : ℕ
max_tcp_banner_length = 80

-- What the network and the clock (in milliseconds) give to a run, in the order of the calls: an error
-- of the dialling and of the write, the first line or its error, the body or its error.
pub record TcpInput : Type 0 where
  pub started : ℤ
  pub dial_error : Option String
  pub connected : ℤ
  pub write_error : Option String
  pub line : String ⊎ String
  pub line_read : ℤ
  pub body : String ⊎ String
  pub body_read : ℤ
  pub ended : ℤ
  pub tls : ConnectionState

abbrev pub time_metric : String → ℤ → ℤ → Metric
time_metric name from to =
    new_metric name "" metric_number (int (wrap64 (to -ℤ from))) "MILLISECONDS"

module _ (rx : Regexp) (lower : String → String) (now : ℤ) (d : TcpDetails) (io : TcpInput) where
  open rx use {compile, find_submatch}

  unfoldable pub dial : Attempt Result
  unfolding new_result add_metric wrap64 ◌-ℤ◌
  dial = elim io.dial_error [
    | some e ↦ failed e (new_result [])
    | none ↦ going (add_metric (time_metric "tt_connect" io.started io.connected) (new_result []))
  ]

  unfoldable pub send_body : Result → Attempt Result
  send_body r =
      if str_eq d.send_body ""
      then going r
      else elim io.write_error [ none ↦ going r | some e ↦ failed e r ]

  -- The first match of a line, which has the whole match first; a pattern that does not compile adds
  -- nothing.
  unfoldable pub banner_metric : String → Result → Attempt Result
  unfolding add_metric
  banner_metric line r = elim (compile d.banner_match) [
    | inl e ↦ going r
    | inr re ↦ elim (find_submatch re line) [
      | none ↦ going (add_metric (text_metric "banner_match" "") r)
      | some m ↦ elim m [
        | [] ↦ crashed
        | whole ∷ groups ↦ going (add_metric (text_metric "banner_match" whole) r)
      ]
    ]
  ]

  unfoldable pub match_banner : Result → Attempt Result
  unfolding banner_metric crop add_metric
  match_banner r = if str_eq d.banner_match "" then going r else elim io.line [
    | inl e ↦ failed e r
    | inr line ↦ banner_metric (crop max_tcp_banner_length line) r >>= λ r'.
        going (add_metric (time_metric "tt_firstbyte" io.started io.line_read) r')
  ]

  -- The test of the error is inverted: only a pattern that did not compile, which is nil, is asked
  -- for its matches, and that is a nil dereference.
  unfoldable pub match_body : Result → Attempt Result
  unfolding add_metric
  match_body r = if str_eq d.body_match "" then going r else elim io.body [
    | inl e ↦ failed e r
    | inr body ↦ elim (compile d.body_match) [
      | inl e ↦ crashed
      | inr re ↦ going (add_metric (time_metric "tt_body" io.started io.body_read) r)
    ]
  ]

  unfoldable pub finish_tcp : Result → Result
  unfolding add_metric add_tls_metrics
  finish_tcp r =
      let r' = add_metric (time_metric "duration" io.started io.ended) r in
      if d.use_ssl then (add_tls_metrics lower now io.tls r').0 else r'

  unfoldable pub attempt_tcp : Attempt (Result × String)
  unfolding dial send_body match_banner match_body finish_tcp
  attempt_tcp = dial >>= send_body >>= match_banner >>= match_body >>= λ r.
      going (finish_tcp r, status_success)

  unfoldable pub run_tcp {ℓ} : {C : Type ℓ} → C → Outcome (ResultSet C)
  unfolding attempt_tcp
  run_tcp check = complete check attempt_tcp
