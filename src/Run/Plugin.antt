-- ===== src/Run/Plugin.antt =====
-- check/check_plugin.go: what a plugin prints, and Run with what its process did. strings.ToLower is an
-- argument.
use Prim.Native.String.{◌++◌ as text_append}
use rackspace_monitoring_pol.Base.{
  String, Bool, true, false, Option, none, some, List, [], ◌∷◌, str_eq, ◌||◌, if◌then◌else◌,
}
use rackspace_monitoring_pol.Base.Text.{trim_space}
use rackspace_monitoring_pol.Base.Lines.{fields, scan_lines}
use rackspace_monitoring_pol.Base.Pattern.{
  Part, word, blanks, one_of, lazy_group, greedy_group, match_parts,
}
use rackspace_monitoring_pol.Results.{
  Metric, MetricType, metric_string, metric_float, metric_number, text, new_metric, Result,
  new_result, add_metric, ResultSet, new_result_set, change_states, set_status, set_state_available,
  set_state_unavailable,
}

abbrev pub error_plugin_exit : String
error_plugin_exit = "Plugin exited with non-zero status code"

abbrev pub status_regex : List Part
status_regex =
    word "status" ∷ blanks ∷ one_of ("err" ∷ "warn" ∷ "ok" ∷ []) ∷ blanks ∷ greedy_group ∷ []

abbrev pub state_regex : List Part
state_regex = word "state" ∷ blanks ∷ lazy_group ∷ []

abbrev pub metric_regex : List Part
metric_regex =
    word "metric" ∷ blanks ∷ lazy_group ∷ blanks ∷ lazy_group ∷ blanks ∷ greedy_group ∷ []

-- The kind of a metric by its unit.
abbrev pub poller_type : String → Option MetricType
poller_type u =
    if str_eq u "string"
    then some metric_string
    else if str_eq u "double" || str_eq u "float"
    then some metric_float
    else if str_eq u "gauge"
        || str_eq u "int"
        || str_eq u "int32"
        || str_eq u "uint32"
        || str_eq u "int64"
        || str_eq u "uint64"
    then some metric_number
    else none

-- The result of the run is the first of the set.
abbrev add_to_first : Metric → List Result → List Result
add_to_first m [] = []
add_to_first m (r ∷ rs) = add_metric m r ∷ rs

module _ (lower : String → String) where
  -- The status that a line sets; its level is "err", "warn" or "ok".
  unfoldable pub status_of_line : String → Option String
  unfolding match_parts
  status_of_line line = elim (match_parts status_regex line) [
    | some (level ∷ (status ∷ [])) ↦
        let l = lower level in
        some (
          if str_eq l "ok" || str_eq l "warn" || str_eq l "err"
          then status
          else text_append level (text_append " " status))
    | _ ↦ none
  ]

  -- Whether the line says that the target is available, if it says so or the contrary.
  abbrev state_of_fields : List String → Option Bool
  state_of_fields [] = none
  state_of_fields (n ∷ []) = none
  state_of_fields (n ∷ (v ∷ r)) =
      if str_eq (lower v) "available"
      then some true
      else if str_eq (lower v) "unavailable"
      then some false
      else none

  unfoldable pub state_of_line : String → Option Bool
  unfolding match_parts fields
  state_of_line line = elim (match_parts state_regex line) [
    | none ↦ none
    | some m ↦ state_of_fields (fields line)
  ]

  unfoldable pub metric_of_line : String → Option Metric
  unfolding match_parts new_metric
  metric_of_line line = elim (match_parts metric_regex line) [
    | some (name ∷ (unit ∷ (value ∷ []))) ↦ elim (poller_type (lower unit)) [
      | none ↦ none
      | some type ↦ some (new_metric name "" type (text value) (lower unit))
    ]
    | _ ↦ none
  ]

  module _ {ℓ} {C : Type ℓ} where
    abbrev pub take_status : Option String → ResultSet C → ResultSet C
    take_status none rs = rs
    take_status (some status) rs = change_states (set_status status) rs

    abbrev pub take_state : Option Bool → ResultSet C → ResultSet C
    take_state none rs = rs
    take_state (some available) rs =
        if available then set_state_available rs else set_state_unavailable rs

    abbrev pub take_metric : Option Metric → ResultSet C → ResultSet C
    take_metric none rs = rs
    take_metric (some m) rs = record rs { metrics = add_to_first m rs.metrics }

    unfoldable pub handle_line : String → ResultSet C → ResultSet C
    unfolding status_of_line state_of_line metric_of_line set_status set_state_available
        set_state_unavailable add_metric
    handle_line line rs =
        take_metric (metric_of_line line)
          (take_state (state_of_line line) (take_status (status_of_line line) rs))

    unfoldable pub handle_lines : List String → ResultSet C → ResultSet C
    unfolding handle_line
    handle_lines [] rs = rs
    handle_lines (line ∷ lines) rs = handle_lines lines (handle_line (trim_space line) rs)

    unfoldable pub handle_stdout : String → ResultSet C → ResultSet C
    unfolding handle_lines scan_lines
    handle_stdout stdout rs = handle_lines (scan_lines stdout) rs

    abbrev failed_exit : ResultSet C → ResultSet C
    failed_exit rs = change_states (set_status error_plugin_exit) (set_state_unavailable rs)

    -- What the operating system did: the error of the pipe, whether the process could not be started,
    -- what it printed, whether it ended with an error.
    unfoldable pub run_plugin : Option String → Bool → String → Bool → C → ResultSet C
    unfolding handle_stdout new_result
    run_plugin pipe_error start_failed stdout wait_failed check =
        let rs = set_state_available (new_result_set check (some (new_result []))) in
        let done = handle_stdout stdout rs in
        elim pipe_error [
          | some e ↦ change_states (set_status e) (set_state_unavailable rs)
          | none ↦
              if start_failed
              then failed_exit rs
              else if wait_failed
              then failed_exit done
              else done
        ]
