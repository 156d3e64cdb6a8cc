-- ===== src/Tracker/Decompose.antt =====
-- runMetricsDecomposer of endpoint/agent_tracker.go and BuildMetricName of endpoint/metrics_router.go:
-- the metrics that the endpoint routes for one metrics post. The router itself only logs them.
use Prim.Native.String.{◌++◌ as text_append}
use rackspace_monitoring_pol.Base.{String, Option, none, some, List, [], ◌∷◌, ◌++◌, map}
use rackspace_monitoring_pol.Base.Dict.{Dict}
use rackspace_monitoring_pol.Results.Post.{MetricTvu, MetricWrap, MetricsPostContent}

-- The router's Metric
pub record RoutedMetric : Type 0 where
  pub name : String
  pub value : String
  pub metric_type : String

unfoldable pub build_metric_name : String → String → String → String → String → String
build_metric_name entity_id agent_id check_type check_id field = text_append entity_id (
    text_append "." (
      text_append agent_id (
        text_append "." (
          text_append check_type
            (text_append "." (text_append check_id (text_append "." field)))))))

-- The order in which Go ranges over a map is not specified: `range_of` gives a map's entries in it.
module _ (range_of : Dict String MetricTvu → List (String × MetricTvu)) (agent_id : String)
    (content : MetricsPostContent) where
  abbrev pub routed : String × MetricTvu → RoutedMetric
  routed (field, entry) = record {
    name = build_metric_name content.entity_id agent_id content.check_type content.check_id field;
    value = entry.value;
    metric_type = entry.type;
  }

  -- The loop over one map; a nil map has no entries.
  unfoldable pub decompose_entries : Option (Dict String MetricTvu) → List RoutedMetric
  unfolding build_metric_name
  decompose_entries none = []
  decompose_entries (some entries) = map routed (range_of entries)

  unfoldable pub decompose_wrap : MetricWrap → List RoutedMetric
  unfolding decompose_entries
  decompose_wrap [] = []
  decompose_wrap (entries ∷ wrap) = decompose_entries entries ++ decompose_wrap wrap

  unfoldable pub decompose_wraps : List MetricWrap → List RoutedMetric
  unfolding decompose_wrap
  decompose_wraps [] = []
  decompose_wraps (wrap ∷ wraps) = decompose_wrap wrap ++ decompose_wraps wraps

unfoldable pub decompose :
    (Dict String MetricTvu → List (String × MetricTvu))
    → String
    → MetricsPostContent
    → List RoutedMetric
unfolding decompose_wraps
decompose range_of agent_id content = decompose_wraps range_of agent_id content content.metrics
