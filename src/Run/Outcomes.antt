-- ===== src/Run/Outcomes.antt =====
-- What a plugin's run reports (check/check_plugin.go).
use rackspace_monitoring_pol.Base.{
  String, Bool, true, false, Option, none, some, List, [], ◌∷◌, ◌≡◌, refl, ◌∙◌, ap, str_eq,
  Bool-cases, inl, inr, if◌then◌else◌,
}
use rackspace_monitoring_pol.Base.Dict.{string_eq, lookup, lookup-insert}
use rackspace_monitoring_pol.Base.Text.{crop, trim_space}
use rackspace_monitoring_pol.Base.Lines.{scan_lines}
use rackspace_monitoring_pol.Results.{
  Metric, Result, new_result, add_metric, ResultSet, new_result_set, add, add_metrics, set_status,
  status_limit, set_state_available, set_state_unavailable, state_available, state_unavailable,
  status_unknown_error,
}
use rackspace_monitoring_pol.Run.Plugin.{
  status_of_line, state_of_line, metric_of_line, take_status, take_state, take_metric, handle_line,
  handle_lines, handle_stdout, run_plugin, error_plugin_exit,
}

-- The last value that a line gives, or else the given one.
abbrev pub last_given : {A : Type 0} → (String → Option A) → List String → A → A
last_given f [] a = a
last_given f (line ∷ lines) a =
    last_given f lines (elim (f (trim_space line)) [ none ↦ a | some b ↦ b ])

abbrev pub named : String → Option Metric → Option (Option Metric)
named k none = none
named k (some m) = if str_eq m.name k then some (some m) else none

-- As much of a status as is kept.
abbrev pub kept : Option String → Option String
kept none = none
kept (some s) = some (crop status_limit s)

lookup-add_metric :
    (k : String) (m : Metric) (r : Result) (found : Option Metric)
    → lookup k r ≡ found
    → lookup k (add_metric m r) ≡ (elim (named k (some m)) [ none ↦ found | some n ↦ n ])
unfolding add_metric
lookup-add_metric k m r found h = elim (Bool-cases (str_eq m.name k)) [
  | inl same ↦ rw (lookup-insert m.name k m r, same) refl
  | inr other ↦ rw (lookup-insert m.name k m r, other) h
]

abbrev pub state_word : Bool → String
state_word available = if available then state_available else state_unavailable

module _ {ℓ} {C : Type ℓ} (lower : String → String) where
  -- A set with one result, whose state and availability agree.
  abbrev pub Told : ResultSet C → String → Bool → (String → Option Metric) → Type 0
  Told rs status available found =
      (rs.states.status ≡ status)
      × (rs.available ≡ available)
      × (rs.states.state ≡ state_word available)
      × (r : Result) × (rs.metrics ≡ r ∷ [])
      × ((k : String) → lookup k r ≡ found k)

  pub Told-same :
      (rs : ResultSet C) {status status' : String} {available available' : Bool}
      {found found' : String → Option Metric}
      → Told rs status available found
      → status ≡ status'
      → available ≡ available'
      → ((k : String) → found k ≡ found' k)
      → Told rs status' available' found'
  Told-same rs (a, b, c, r, e, f) p q w = (a ∙ p, b ∙ q, c ∙ ap state_word q, r, e, λ k. f k ∙ w k)

  take_status-Told :
      (rs : ResultSet C) (status : String) (available : Bool) (found : String → Option Metric)
      (o : Option String)
      → Told rs status available found
      → Told (take_status lower o rs) (elim (kept o) [ none ↦ status | some s ↦ s ]) available found
  unfolding set_status
  take_status-Told rs status available found none h = h
  take_status-Told rs status available found (some s) (a, b, c, d, e, f) = (refl, b, c, d, e, f)

  take_state-Told :
      (rs : ResultSet C) (status : String) (available : Bool) (found : String → Option Metric)
      (o : Option Bool)
      → Told rs status available found
      → Told (take_state lower o rs) status (elim o [ none ↦ available | some a ↦ a ]) found
  unfolding set_state_available set_state_unavailable
  take_state-Told rs status available found none h = h
  take_state-Told rs status available found (some true) (a, b, c, d, e, f) =
      (a, refl, refl, d, e, f)
  take_state-Told rs status available found (some false) (a, b, c, d, e, f) =
      (a, refl, refl, d, e, f)

  take_metric-Told :
      (rs : ResultSet C) (status : String) (available : Bool) (found : String → Option Metric)
      (o : Option Metric)
      → Told rs status available found
      → Told
          (take_metric lower o rs)
          status
          available
          (λ k. elim (named k o) [ none ↦ found k | some m ↦ m ])
  unfolding add_metric
  take_metric-Told rs status available found none h = h
  take_metric-Told rs status available found (some m) (a, b, c, r, e, f) =
      (a, b, c, add_metric m r, rw e refl, λ k. lookup-add_metric k m r (found k) (f k))

  handle_line-Told :
      (line : String) (rs : ResultSet C) (status : String) (available : Bool)
      (found : String → Option Metric)
      → Told rs status available found
      → Told
          (handle_line lower line rs)
          (elim (kept (status_of_line lower line)) [ none ↦ status | some s ↦ s ])
          (elim (state_of_line lower line) [ none ↦ available | some a ↦ a ])
          (λ k. elim (named k (metric_of_line lower line)) [ none ↦ found k | some m ↦ m ])
  unfolding handle_line
  handle_line-Told line rs status available found h =
      take_metric-Told _ _ _ found (metric_of_line lower line) (
        take_state-Told _ _ available found (state_of_line lower line)
          (take_status-Told rs status available found (status_of_line lower line) h))

  handle_lines-Told :
      (lines : List String) (rs : ResultSet C) (status : String) (available : Bool)
      (found : String → Option Metric)
      → Told rs status available found
      → Told
          (handle_lines lower lines rs)
          (last_given (λ line. kept (status_of_line lower line)) lines status)
          (last_given (state_of_line lower) lines available)
          (λ k. last_given (λ line. named k (metric_of_line lower line)) lines (found k))
  unfolding handle_lines
  handle_lines-Told [] rs status available found h = h
  handle_lines-Told (line ∷ lines) rs status available found h =
      handle_lines-Told lines _ _ _ _
        (handle_line-Told (trim_space line) rs status available found h)

  handle_stdout-Told :
      (stdout : String) (check : C)
      → let lines = scan_lines stdout in
        Told
          (run_plugin lower none false stdout false check)
          (last_given (λ line. kept (status_of_line lower line)) lines status_unknown_error)
          (last_given (state_of_line lower) lines true)
          (λ k. last_given (λ line. named k (metric_of_line lower line)) lines none)
  unfolding run_plugin handle_stdout new_result new_result_set set_state_available add add_metrics
      lookup
  handle_stdout-Told stdout check =
      handle_lines-Told (scan_lines stdout)
        (set_state_available (new_result_set check (some (new_result [])))) status_unknown_error
        true (λ k. none) (refl, refl, refl, [], refl, λ k. refl)

  -- A plugin whose process ran to its end without an error: the status is that of the last status line,
  -- "unknown error" without one, the state that of the last state line, "available" without one, and the
  -- single result has for each name the metric of the last metric line with that name.
  -- If the process ended with an error, the metrics are the same, but the target is unavailable with the
  -- status of a failed exit.
  pub run_plugin-Told :
      (stdout : String) (failed : Bool) (check : C)
      → let lines = scan_lines stdout in
        Told
          (run_plugin lower none false stdout failed check)
          (if failed
            then error_plugin_exit
            else last_given (λ line. kept (status_of_line lower line)) lines status_unknown_error)
          (if failed then false else last_given (state_of_line lower) lines true)
          (λ k. last_given (λ line. named k (metric_of_line lower line)) lines none)
  unfolding run_plugin set_state_unavailable set_status crop
  run_plugin-Told stdout false check = handle_stdout-Told stdout check
  run_plugin-Told stdout true check =
      let (a, b, c, r, e, f) = handle_stdout-Told stdout check in (refl, refl, refl, r, e, f)
