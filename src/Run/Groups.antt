-- ===== src/Run/Groups.antt =====
-- When an HTTP check crashes the poller (check/check_http.go).
use rackspace_monitoring_pol.Base.{◌≡◌, ◌⊎◌, inr, String, Option, none, some, []}
use rackspace_monitoring_pol.Base.Int.{ℤ, ◌-ℤ◌}
use rackspace_monitoring_pol.Base.Words.{wrap64}
use rackspace_monitoring_pol.Check.Details.{HttpDetails}
use rackspace_monitoring_pol.Results.{Result, new_result, add_metrics}
use rackspace_monitoring_pol.Run.{Regexp, Attempt, going, failed}
use rackspace_monitoring_pol.Run.Http.{Response, HttpInput, trace_metrics, finish_http}
use rackspace_monitoring_pol.Run.Matches.{MatchesWithoutGroup}

module _ (rx : Regexp) (lower : String → String) (itoa : ℤ → String) (now : ℤ)
    (d : HttpDetails) where
  open rx use {Pattern, compile, groups, find_submatch, find_submatch-length}

  -- The pattern for the whole body is not used, or it compiles.
  abbrev pub MainCompiles : Type 0
  MainCompiles = (d.body ≡ "") ⊎ ((re : Pattern) × (compile d.body ≡ inr re))

  abbrev MainMatch : Attempt Result → Type 0
  MainMatch a =
      (MainCompiles × ((r : Result) × (a ≡ going r)))
      ⊎ ((¬ MainCompiles) × ((e : String) × (r : Result) × (a ≡ failed e r)))

  -- The run of `io` reads this body.
  abbrev pub ReadsBody : HttpInput → String → Type 0
  ReadsBody io body =
      (io.request_error ≡ none)
      × ((resp : Response) × (io.response ≡ some resp) × (resp.body ≡ inr body))

  abbrev pub CrashesAtMatches : HttpInput → Type 0
  CrashesAtMatches io =
      (body : String) × ReadsBody io body
      × MainCompiles
      × (MatchesWithoutGroup rx lower itoa now d) d.body_matches body

  abbrev traced_result : HttpInput → Result
  traced_result io = add_metrics (trace_metrics io.traced) (new_result [])

  abbrev finish_read : HttpInput → Response → String → Result → Result × String
  finish_read io resp body r =
      finish_http rx lower itoa now d resp.status_code resp.tls (wrap64 (io.ended -ℤ io.started))
        body r
