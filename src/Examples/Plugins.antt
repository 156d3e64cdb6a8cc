-- ===== src/Examples/Plugins.antt =====
-- The theorems on check/check_plugin.go, at what a small plugin prints.
use Prim.Native.String.{◌++◌ as text_append}
use rackspace_monitoring_pol.Base.{String, false, none, some, List, [], ◌∷◌, map, ◌≡◌, ◌≢◌, refl}
use rackspace_monitoring_pol.Base.Dict.{string_eq}
use rackspace_monitoring_pol.Base.Text.{trim_space}
use rackspace_monitoring_pol.Base.Lines.{scan_lines, split_by, drop_cr}
use rackspace_monitoring_pol.Base.Pattern.{behind}
use rackspace_monitoring_pol.Base.Pattern.Words.{behind-append}
use rackspace_monitoring_pol.Results.{metric_number, new_metric, text}
use rackspace_monitoring_pol.Run.Plugin.{run_plugin, metric_of_line}
use rackspace_monitoring_pol.Run.Printed.{printed, metric_of_line-printed}
use rackspace_monitoring_pol.Run.Said.{
  Said, status, state, metric, remark, fine, warn, print, IsSayable, metric_after,
}
use rackspace_monitoring_pol.Run.Outcomes.{Told}
use rackspace_monitoring_pol.Run.Reported.{run_plugin-Reports}

-- The texts are in lower case.
abbrev lower : String → String
lower s = s

metric_of_line-printed_example :
    metric_of_line lower (printed "load" "int64" "17 of 20")
    ≡ some (new_metric "load" "" metric_number (text "17 of 20") "int64")
metric_of_line-printed_example =
    metric_of_line-printed lower "load" "int64" "17 of 20" metric_number refl refl refl refl refl
      refl refl

abbrev stdout : String
stdout = "status ok fine\n hello\nmetric load int64 17\nstate unavailable\nstatus warn busy\n"

abbrev what_it_says : List Said
what_it_says =
    status fine "fine"
    ∷ remark "hello"
    ∷ metric "load" "int64" "17" metric_number
    ∷ state false
    ∷ status warn "busy"
    ∷ []

abbrev check_id : String
check_id = "ch0"

lines_said : map trim_space (scan_lines stdout) ≡ map print what_it_says
unfolding scan_lines trim_space split_by drop_cr
lines_said = refl

another_start : (w r : String) → behind w "hello" ≡ none → "hello" ≢ text_append w r
another_start w r e h = cc (e, h, behind-append w r)

hello-IsSayable : IsSayable lower (remark "hello")
hello-IsSayable r =
    (another_start "status" r refl, another_start "state" r refl, another_start "metric" r refl)

run_plugin-Reports_example :
    Told lower
      (run_plugin lower none false stdout false check_id)
      "busy"
      false
      (λ k. metric_after lower k what_it_says none)
run_plugin-Reports_example =
    run_plugin-Reports lower (λ l. refl, refl, refl) stdout what_it_says false check_id lines_said
      (
        (refl, refl),
        (hello-IsSayable, ((refl, refl, refl, refl, refl, refl, refl), (tt, ((refl, refl), tt)))),
      )
