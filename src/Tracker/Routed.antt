-- ===== src/Tracker/Routed.antt =====
-- What the endpoint routes of the results that a poller posts: check/checkresult.go together with
-- endpoint/agent_tracker.go.
use Prim.Native.String.{◌++◌ as text_append}
use mathlib.Core.List.{Perm, append-nil}
use mathlib.Core.List.Perm
use rackspace_monitoring_pol.Base.{String, some, List, [], ◌∷◌, ◌++◌, ◌≡◌, refl, map}
use rackspace_monitoring_pol.Base.Dict.{Dict}
use rackspace_monitoring_pol.Base.Int.{ℤ}
use rackspace_monitoring_pol.Protocol.Checks.{CheckIn}
use rackspace_monitoring_pol.Results.{Value, Metric, Result, ResultSet}
use rackspace_monitoring_pol.Results.Post.{
  MetricTvu, MetricsPostContent, wrapper, convert_to_metric_results, populate_metrics_post_content,
}
use rackspace_monitoring_pol.Tracker.Decompose.{
  RoutedMetric, routed, build_metric_name, decompose_entries, decompose_wrap, decompose_wraps,
  decompose,
}

abbrev dotted : List String → String
dotted [] = ""
dotted (s ∷ []) = s
dotted (s ∷ t ∷ ss) = text_append s (text_append "." (dotted (t ∷ ss)))

module _ (print : Value → String) (agent_id : String) (check : CheckIn) where
  -- A metric under the name <entity_id>.<agent_id>.<check_type>.<check_id>.<field>.
  abbrev pub named_metric : String × Metric → RoutedMetric
  named_metric (field, m) = record {
    name = dotted (check.entity_id ∷ agent_id ∷ check.check_type ∷ check.id ∷ field ∷ []);
    value = print m.value;
    metric_type = m.type_string;
  }

  -- The metrics of all results, one after the other.
  abbrev pub of_results : List Result → List RoutedMetric
  of_results [] = []
  of_results (r ∷ rs) = map named_metric r ++ of_results rs

  module _ (range_of : Result → List (String × Metric))
      (range_of' : Dict String MetricTvu → List (String × MetricTvu))
      (every : (r : Result) → Perm (range_of r) r)
      (every' : (m : Dict String MetricTvu) → Perm (range_of' m) m) (content : MetricsPostContent)
      (same_entity : content.entity_id ≡ check.entity_id)
      (same_type : content.check_type ≡ check.check_type)
      (same_id : content.check_id ≡ check.id) where
    routed-wrapper :
        (r : Result)
        → map (routed range_of' agent_id content) (wrapper print range_of r) ≡ map named_metric r
    unfolding wrapper build_metric_name
    routed-wrapper [] = refl
    routed-wrapper ((field, m) ∷ r) = rw (same_entity, same_type, same_id, routed-wrapper r) refl

    decompose_entries-wrapper :
        (r : Result)
        → Perm
            (decompose_entries range_of' agent_id content
              (some (wrapper print range_of (range_of r))))
            (map named_metric r)
    unfolding decompose_entries
    decompose_entries-wrapper r =
        Perm.trans
          (Perm.map (routed range_of' agent_id content)
            (every' (wrapper print range_of (range_of r))))
          (rw (routed-wrapper (range_of r)) (Perm.map named_metric (every r)))

    decompose_wraps-results :
        (rs : List Result)
        → Perm
            (decompose_wraps range_of' agent_id content
              (map (convert_to_metric_results print range_of) rs))
            (of_results rs)
    unfolding decompose_wraps decompose_wrap convert_to_metric_results decompose_entries
    decompose_wraps-results [] = Perm.refl []
    decompose_wraps-results (r ∷ rs) =
        Perm.append
          (rw
            (append-nil (
              decompose_entries range_of' agent_id content
                (some (wrapper print range_of (range_of r)))))
            (decompose_entries-wrapper r))
          (decompose_wraps-results rs)

-- Of the results that a poller posts, the endpoint routes each metric exactly once, in whatever order
-- either side goes through its maps: with its printed value and its type, under the name made of the
-- check's entity, the agent, the check's type, the check's id and the metric's name, with dots between
-- them, whatever the clock and the offset, the state and the status are.
pub decompose-populated :
    (print : Value → String) (range_of : Result → List (String × Metric))
    (range_of' : Dict String MetricTvu → List (String × MetricTvu))
    → ((r : Result) → Perm (range_of r) r)
    → ((m : Dict String MetricTvu) → Perm (range_of' m) m)
    → (agent_id : String) (now clock_offset : ℤ) (rs : ResultSet CheckIn)
    → Perm
        (decompose range_of' agent_id
          (populate_metrics_post_content print range_of now clock_offset rs))
        (of_results print agent_id rs.check rs.metrics)
unfolding decompose populate_metrics_post_content
decompose-populated print range_of range_of' every every' agent_id now clock_offset rs =
    decompose_wraps-results print agent_id rs.check range_of range_of' every every'
      (populate_metrics_post_content print range_of now clock_offset rs) refl refl refl rs.metrics
