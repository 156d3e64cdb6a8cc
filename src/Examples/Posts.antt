-- ===== src/Examples/Posts.antt =====
-- The theorem on endpoint/agent_tracker.go's decomposer, at a small set of results.
use mathlib.Core.List.{Perm, reverse, reverse_perm}
use rackspace_monitoring_pol.Base.{String, true, List, [], ◌∷◌}
use rackspace_monitoring_pol.Base.Int.{pos}
use rackspace_monitoring_pol.Protocol.Checks.{CheckIn}
use rackspace_monitoring_pol.Results.{Value, text, Metric, metric_string, Result, ResultSet}
use rackspace_monitoring_pol.Results.Post.{populate_metrics_post_content}
use rackspace_monitoring_pol.Tracker.Decompose.{decompose}
use rackspace_monitoring_pol.Tracker.Routed.{of_results, decompose-populated}
use rackspace_monitoring_pol.Examples.Data.{tcp_check}

-- Every value is printed alike.
abbrev print : Value → String
print v = "7"

abbrev code : Metric
code = record {
  type = metric_string;
  type_string = "string";
  dimension = "none";
  name = "code";
  unit = "";
  value = text "7";
}

abbrev results : List Result
results = (("code", code) ∷ ("copy", code) ∷ []) ∷ []

abbrev result_set : ResultSet CheckIn
result_set = record {
  states = record { state = "available"; status = "ok" };
  check = tcp_check;
  metrics = results;
  available = true;
}

-- The maps are gone through backwards.
decompose-populated_example :
    Perm
      (decompose reverse "agent"
        (populate_metrics_post_content print reverse (pos 9) (pos 1) result_set))
      (of_results print "agent" tcp_check results)
decompose-populated_example =
    decompose-populated print reverse reverse reverse_perm reverse_perm "agent" (pos 9) (pos 1)
      result_set
