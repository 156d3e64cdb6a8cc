-- ===== src/Examples/Schedulers.antt =====
-- The theorems on poller/scheduler.go, at a scheduler with one check.
use rackspace_monitoring_pol.Base.{String, ◌≡◌, refl, inl, none, [], ◌∷◌, All, false}
use rackspace_monitoring_pol.Base.Int.{negsuc}
use rackspace_monitoring_pol.Base.Dict.{lookup, string_eq}
use rackspace_monitoring_pol.Base.Outcome.{Returns}
use rackspace_monitoring_pol.Check.Details.{tcp}
use rackspace_monitoring_pol.Scheduler.{Scheduler, Running, reconcile_checks, reset, bump}
use rackspace_monitoring_pol.Scheduler.Reconcile.{Reconciled, reconcile_checks-Reconciled}
use rackspace_monitoring_pol.Scheduler.Owned.{WellFormed, IsCancelled}
use rackspace_monitoring_pol.Scheduler.Orphans.{reconcile_checks-WellFormed}
use rackspace_monitoring_pol.Scheduler.Reset.{reset-cancels}
use rackspace_monitoring_pol.Examples.Data.{tcp_check, ping_check, started}

abbrev running_tcp : Running
running_tcp = record {
  serial = 0;
  check = record {
    check_in = tcp_check;
    details =
        tcp (record {
          banner_match = "";
          body_match = "";
          port = 80;
          send_body = "";
          use_ssl = false;
        });
  };
}

abbrev one_running : Scheduler
one_running = record {
  zone_id = "z";
  checks = ("ch1", running_tcp) ∷ [];
  next_serial = 1;
  loops = running_tcp ∷ [];
  cancelled = [];
  gauge = [];
}

-- The running check is not mentioned, and another one is started.
reconcile_checks-Reconciled_example :
    Returns
      (reconcile_checks (started ping_check ∷ []) one_running)
      (Reconciled (started ping_check ∷ []) one_running)
unfolding lookup
reconcile_checks-Reconciled_example =
    reconcile_checks-Reconciled (started ping_check ∷ []) one_running (refl, tt) (refl, tt)
      ((λ e r. cc), tt)

one_running-WellFormed : WellFormed one_running
unfolding lookup
one_running-WellFormed = ((refl, tt), (inl refl, tt))

reset-cancels_example :
    ((k : String) → lookup k (reset one_running).checks ≡ none)
    × All (λ r. IsCancelled (reset one_running).cancelled r.serial) (reset one_running).loops
reset-cancels_example = reset-cancels one_running one_running-WellFormed

-- An empty preparation removes the check.
abbrev none_running : Scheduler
none_running = record one_running {
  checks = [];
  cancelled = 0 ∷ [];
  gauge = (bump "remote.tcp" (negsuc 0) one_running).gauge;
}

reconcile_checks-WellFormed_example : WellFormed none_running
unfolding reconcile_checks
reconcile_checks-WellFormed_example =
    reconcile_checks-WellFormed [] one_running none_running one_running-WellFormed refl
