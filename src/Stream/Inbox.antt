-- ===== src/Stream/Inbox.antt =====
-- The two channels of a scheduler (poller/scheduler.go), and its goroutine runReconciler, which takes
-- from either of them.
use rackspace_monitoring_pol.Base.{ℕ, zero, suc, ◌+◌, List, [], ◌∷◌, ◌++◌}
use rackspace_monitoring_pol.Base.Outcome.{Outcome, ok, ◌>>=◌}
use rackspace_monitoring_pol.Preparation.{ChecksPreparation}
use rackspace_monitoring_pol.Scheduler.{Scheduler, reconcile, reset}

pub record Mailbox : Type 0 where
  pub scheduler : Scheduler
  pub preparations : List ChecksPreparation
  pub resets : ℕ

-- Reset
abbrev pub request_reset : Mailbox → Mailbox
request_reset m = record m { resets = m.resets + 1 }

-- ReconcileChecks
abbrev pub hand_over : ChecksPreparation → Mailbox → Mailbox
hand_over cp m = record m { preparations = m.preparations ++ cp ∷ [] }

-- The branch of runReconciler that takes a preparation, if there is one.
unfoldable pub take_preparation : Mailbox → Outcome Mailbox
take_preparation m = elim m.preparations [
  | [] ↦ ok m
  | cp ∷ rest ↦ do
    s ← reconcile cp m.scheduler
    ok (record m { scheduler = s; preparations = rest })
]

-- The branch that takes a reset, if there is one.
unfoldable pub take_reset : Mailbox → Mailbox
unfolding reset
take_reset m = elim m.resets [
  | zero ↦ m
  | suc n ↦ record m { scheduler = reset m.scheduler; resets = n }
]
