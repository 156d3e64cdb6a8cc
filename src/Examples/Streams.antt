-- ===== src/Examples/Streams.antt =====
-- The theorems on poller/connection_stream.go, at concrete connections.
use rackspace_monitoring_pol.Base.{String, ◌≡◌, ◌⊎◌, true, false, none, some, [], ◌∷◌, All}
use rackspace_monitoring_pol.Base.Int.{pos, ltb_ℤ}
use rackspace_monitoring_pol.Scheduler.{new_scheduler}
use rackspace_monitoring_pol.Stream.{Connection, Stream, choose_best, send_metrics, max_int64}
use rackspace_monitoring_pol.Stream.Inbox.{Mailbox}
use rackspace_monitoring_pol.Stream.Best.{
  IsBest, Delivery, choose_best-IsBest, send_metrics-Delivery,
}
use rackspace_monitoring_pol.Stream.Host.{
  Host, new_host, enter, announce, register, waiting, Reachable, start, next, connected,
  authenticated,
}
use rackspace_monitoring_pol.Stream.Phases.{Consistent, Reachable-Consistent}

abbrev near : Connection
near = record { name = "near"; has_latency = true; latency = pos 20; clock_offset = pos 3 }

abbrev far : Connection
far = record { name = "far"; has_latency = true; latency = pos 90; clock_offset = pos 5 }

abbrev mailbox : Mailbox
mailbox = record { scheduler = new_scheduler "z"; preparations = []; resets = 0 }

abbrev stream : Stream String
stream = record {
  guid = "old";
  conns = ("a:443", far) ∷ ("b:443", near) ∷ [];
  schedulers = mailbox ∷ [];
  events = [];
  posts = [];
}

choose_best-IsBest_example :
    ((choose_best (far ∷ near ∷ []) ≡ none)
      × All (λ x. x.has_latency ≡ true → ltb_ℤ x.latency max_int64 ≡ false) (far ∷ near ∷ []))
    ⊎ ((c : Connection) × (choose_best (far ∷ near ∷ []) ≡ some c) × IsBest (far ∷ near ∷ []) c)
choose_best-IsBest_example = choose_best-IsBest (far ∷ near ∷ [])

send_metrics-Delivery_example : Delivery "results" stream (send_metrics "results" stream)
send_metrics-Delivery_example = send_metrics-Delivery "results" stream

abbrev registered_host : Host
registered_host = announce register (waiting true) new_host

registered_host-Reachable : Reachable registered_host
registered_host-Reachable =
    next (enter (waiting false) new_host) registered_host
      (next new_host (enter (waiting false) new_host) start (connected new_host))
      (authenticated new_host)

Reachable-Consistent_example : Consistent registered_host
Reachable-Consistent_example = Reachable-Consistent registered_host registered_host-Reachable
