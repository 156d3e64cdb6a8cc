-- ===== src/Examples/Handover.antt =====
-- The theorems on both sides of a handover, at two checks and blocks of one.
use rackspace_monitoring_pol.Base.{Option, none, String, [], ◌∷◌, refl, arith}
use rackspace_monitoring_pol.Preparation.{ChecksPreparation}
use rackspace_monitoring_pol.Session.State.{new_session}
use rackspace_monitoring_pol.Handover.Prepare.{Handled, prepare_checks-Handled}
use rackspace_monitoring_pol.Handover.Commit.{Committed, commit-Committed}
use rackspace_monitoring_pol.Examples.Data.{
  tcp_check, ping_check, tcp_check-IsWritable, ping_check-IsWritable, agent_at_start, one_check,
}

abbrev accept_all : ChecksPreparation → Option String
accept_all cp = none

prepare_checks-Handled_example :
    Handled accept_all (tcp_check ∷ []) (ping_check ∷ []) agent_at_start (new_session "guid")
unfolding new_session
prepare_checks-Handled_example =
    prepare_checks-Handled accept_all (tcp_check ∷ []) (ping_check ∷ []) agent_at_start
      (new_session "guid") (omega arith) (tcp_check-IsWritable, (ping_check-IsWritable, tt))
      (refl, refl) (λ cp e. refl)

commit-Committed_example :
    Committed accept_all (tcp_check ∷ []) [] agent_at_start one_check (new_session "guid")
commit-Committed_example =
    commit-Committed accept_all (tcp_check ∷ []) [] agent_at_start one_check (new_session "guid")
      refl
