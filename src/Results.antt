-- ===== src/Results.antt =====
-- protocol/metric/metric.go and check/checkresult.go: metrics, the result of a check and the set of
-- results with its state and status. A check is what is passed on: a type C.
pub mod Status
pub mod Post
use rackspace_monitoring_pol.Base.{
  ℕ, String, Bool, true, false, Option, none, some, List, [], ◌∷◌, ◌++◌, str_eq, if◌then◌else◌,
  length, leb, get_elem?,
}
use rackspace_monitoring_pol.Base.Int.{ℤ}
use rackspace_monitoring_pol.Base.Dict.{Dict, string_eq, lookup, insert}
use rackspace_monitoring_pol.Base.Outcome.{Outcome, ok, panic}
use rackspace_monitoring_pol.Base.Text.{crop, after_last, trim_space}

-- The kinds of a metric, and the value behind its interface. A float64 is kept as the quotient of
-- the two numbers that it was computed from; its rounding is left out.
pub data MetricType : Type 0 where
  metric_string metric_bool metric_number metric_float : MetricType

pub data Value : Type 0 where
  text : String → Value
  int : ℤ → Value
  quotient : ℤ → ℤ → Value

pub record Metric : Type 0 where
  pub type : MetricType
  pub type_string : String
  pub dimension : String
  pub name : String
  pub unit : String
  pub value : Value

unfoldable pub unit_to_string : MetricType → String
unit_to_string metric_string = "string"
unit_to_string metric_bool = "bool"
unit_to_string metric_number = "int64"
unit_to_string metric_float = "double"

unfoldable pub new_metric : String → String → MetricType → Value → String → Metric
unfolding unit_to_string
new_metric name dimension type value unit = record {
  type = type;
  type_string = unit_to_string type;
  dimension = if str_eq dimension "" then "none" else dimension;
  name = name;
  unit = unit;
  value = value;
}

-- Result
abbrev pub Result : Type 0
Result = Dict String Metric

unfoldable pub add_metric : Metric → Result → Result
unfolding insert
add_metric m r = insert m.name m r

unfoldable pub add_metrics : List Metric → Result → Result
unfolding add_metric
add_metrics [] r = r
add_metrics (m ∷ ms) r = add_metrics ms (add_metric m r)

unfoldable pub new_result : List Metric → Result
unfolding add_metrics
new_result ms = add_metrics ms []

unfoldable pub get_metric : String → Result → Option Metric
unfolding lookup
get_metric name r = lookup name r

-- States
pub record States : Type 0 where
  pub state : String
  pub status : String

abbrev pub state_available : String
state_available = "available"

abbrev pub state_unavailable : String
state_unavailable = "unavailable"

abbrev pub status_success : String
status_success = "success"

abbrev pub status_unknown_error : String
status_unknown_error = "unknown error"

-- DefaultStatusLimit and DefaultStateLimit
abbrev pub status_limit : ℕ
status_limit = 256

abbrev pub state_limit : ℕ
state_limit = 256

unfoldable pub set_state : String → States → States
unfolding crop
set_state s st = record st { state = crop state_limit s }

unfoldable pub set_status : String → States → States
unfolding crop
set_status s st = record st { status = crop status_limit s }

-- SetStatusFromError, on the error's text; the colon is 58.
unfoldable pub set_status_from_error : String → States → States
unfolding after_last trim_space
set_status_from_error e st = elim (after_last 58 e) [
  | some rest ↦ record st { status = trim_space rest }
  | none ↦ record st { status = e }
]

pub record ResultSet {ℓ} (C : Type ℓ) : Type ℓ where
  pub states : States
  pub check : C
  pub metrics : List Result
  pub available : Bool

module _ {ℓ} {C : Type ℓ} where
  unfoldable pub set_state_available : ResultSet C → ResultSet C
  set_state_available rs = record rs {
    available = true;
    states = record rs.states { state = state_available };
  }

  unfoldable pub set_state_unavailable : ResultSet C → ResultSet C
  set_state_unavailable rs = record rs {
    available = false;
    states = record rs.states { state = state_unavailable };
  }

  abbrev pub change_states : (States → States) → ResultSet C → ResultSet C
  change_states f rs = record rs { states = f rs.states }

  unfoldable pub set_status_success : ResultSet C → ResultSet C
  set_status_success rs = record rs { states = record rs.states { status = status_success } }

  unfoldable pub add : Result → ResultSet C → ResultSet C
  add r rs = record rs { metrics = rs.metrics ++ r ∷ [] }

  unfoldable pub clear_metrics : ResultSet C → ResultSet C
  clear_metrics rs = record rs { metrics = [] }

  -- NewResultSet; a nil result is none.
  unfoldable pub new_result_set : C → Option Result → ResultSet C
  unfolding add
  new_result_set c r =
      let empty : ResultSet C = record {
        states = record { state = state_unavailable; status = status_unknown_error };
        check = c;
        metrics = [];
        available = false;
      } in
      elim r [ none ↦ empty | some result ↦ add result empty ]

  -- Get panics out of bounds.
  unfoldable pub get : ℕ → ResultSet C → Outcome Result
  get i rs = elim (get_elem? rs.metrics i) [ none ↦ panic | some r ↦ ok r ]
