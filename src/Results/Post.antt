-- ===== src/Results/Post.antt =====
-- check/checkresult_metrics.go and PopulateMetricsPostContent of check/checkresult.go: what is posted
-- of a set of results.
use rackspace_monitoring_pol.Base.{ℕ, ◌*◌, ◌%◌, ◌^◌, String, Option, none, some, List, [], ◌∷◌, map}
use rackspace_monitoring_pol.Base.Int.{ℤ, ◌+ℤ◌}
use rackspace_monitoring_pol.Base.Words.{wrap64}
use rackspace_monitoring_pol.Base.Dict.{Dict}
use rackspace_monitoring_pol.Protocol.Checks.{CheckIn}
use rackspace_monitoring_pol.Results.{Value, Metric, Result, ResultSet}

pub record MetricTvu : Type 0 where
  pub type : String
  pub value : String
  pub unit : String

-- The first entry, for a resource or dimension, is always nil.
abbrev pub MetricWrap : Type 0
MetricWrap = List (Option (Dict String MetricTvu))

pub record MetricsPostContent : Type 0 where
  pub entity_id : String
  pub check_id : String
  pub check_type : String
  pub metrics : List MetricWrap
  pub min_check_period : ℕ
  pub state : String
  pub status : String
  pub timestamp : ℤ

-- `print` is the rendering of a value by fmt's %v, `now` the poller's clock in milliseconds. The order
-- in which Go ranges over a map is not specified: `range_of` gives a result's entries in that order.
module _ (print : Value → String) (range_of : Result → List (String × Metric)) where
  abbrev pub tvu_of : Metric → MetricTvu
  tvu_of m = record { type = m.type_string; value = print m.value; unit = m.unit }

  -- The map that the loop makes of the entries: their keys are those of a map, and differ.
  unfoldable pub wrapper : List (String × Metric) → Dict String MetricTvu
  wrapper [] = []
  wrapper ((k, m) ∷ r) = (k, tvu_of m) ∷ wrapper r

  unfoldable pub convert_to_metric_results : Result → MetricWrap
  unfolding wrapper
  convert_to_metric_results r = none ∷ some (wrapper (range_of r)) ∷ []

  unfoldable pub populate_metrics_post_content : ℤ → ℤ → ResultSet CheckIn → MetricsPostContent
  unfolding wrap64 convert_to_metric_results ◌+ℤ◌
  populate_metrics_post_content now clock_offset rs = record {
    entity_id = rs.check.entity_id;
    check_id = rs.check.id;
    check_type = rs.check.check_type;
    metrics = map convert_to_metric_results rs.metrics;
    min_check_period = rs.check.period * 1000 % 2 ^ 64;
    state = rs.states.state;
    status = rs.states.status;
    timestamp = wrap64 (now +ℤ clock_offset);
  }
