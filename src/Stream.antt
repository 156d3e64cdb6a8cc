-- ===== src/Stream.antt =====
-- poller/connection_stream.go: the connections of a poller, the schedulers of its zones, and what
-- the coordinator goroutine does with a registration or a result set.
-- A result set is any type; the schedulers' two channels are in their mailboxes.
pub mod Inbox
pub mod Best
pub mod Lost
pub mod Host
pub mod Phases
use rackspace_monitoring_pol.Base.{
  ℕ, ◌+◌, ◌^◌, ◌-◌, String, Bool, true, false, ◌&&◌, Option, none, some, List, [], ◌∷◌, ◌++◌, map,
  if◌then◌else◌,
}
use rackspace_monitoring_pol.Base.Int.{ℤ, pos, ltb_ℤ}
use rackspace_monitoring_pol.Base.Dict.{Dict, values, lookup, insert, delete, string_eq}
use rackspace_monitoring_pol.Preparation.{ChecksPreparation}
use rackspace_monitoring_pol.Scheduler.{Scheduler, ValidationError, validate_checks}
use rackspace_monitoring_pol.Stream.Inbox.{Mailbox, request_reset, hand_over}

-- What the stream asks of a connection.
pub record Connection : Type 0 where
  pub name : String
  pub has_latency : Bool
  pub latency : ℤ
  pub clock_offset : ℤ

-- The events of the stream.
pub data StreamEvent {ℓ} (R : Type ℓ) : Type ℓ where
  registered : Connection → StreamEvent R
  deregistered : Connection → StreamEvent R
  all_connections_lost : StreamEvent R
  dropped_metric : R → StreamEvent R

-- A metrics post: the connection it goes to, the results, and the clock offset they are adjusted by.
pub record Post {ℓ} (R : Type ℓ) : Type ℓ where
  pub connection : Connection
  pub results : R
  pub offset : ℤ

pub record Stream {ℓ} (R : Type ℓ) : Type ℓ where
  pub guid : String
  pub conns : Dict String Connection
  pub schedulers : List Mailbox
  pub events : List (StreamEvent R)
  pub posts : List (Post R)

-- `math.MaxInt64`
abbrev pub max_int64 : ℤ
max_int64 = pos (2 ^ 63 - 1)

-- The loop of ChooseBest, in the order of the iteration over the connections.
unfoldable pub choose_from : List Connection → ℤ → Option Connection → Option Connection
choose_from [] min_latency best = best
choose_from (c ∷ cs) min_latency best =
    let better = choose_from cs c.latency (some c) in
    let same = choose_from cs min_latency best in
    if c.has_latency && ltb_ℤ c.latency min_latency then better else same

unfoldable pub choose_best : List Connection → Option Connection
unfolding choose_from
choose_best cs = choose_from cs max_int64 none

module _ {ℓ} {R : Type ℓ} where
  abbrev pub emit_event : StreamEvent R → Stream R → Stream R
  emit_event e s = record s { events = s.events ++ e ∷ [] }

  unfoldable pub register_connection : String → Connection → Stream R → Stream R
  unfolding insert
  register_connection qry conn s =
      emit_event (registered conn) (record s { conns = insert qry conn s.conns })

  -- The last connection is gone: the schedulers are reset and a new logical session starts.
  unfoldable pub lose_all : String → Stream R → Stream R
  lose_all new_guid s =
      record (emit_event all_connections_lost
        (record s { schedulers = map request_reset s.schedulers })) { guid = new_guid }

  -- deregisterConnection; `new_guid` is what generatePollerGuid gives
  unfoldable pub deregister_connection : String → String → Connection → Stream R → Stream R
  unfolding lookup delete lose_all
  deregister_connection new_guid qry conn s = elim (lookup qry s.conns) [
    | none ↦ s
    | some c ↦
        let s' = emit_event (deregistered conn) (record s { conns = delete qry s.conns }) in
        elim s'.conns [ [] ↦ lose_all new_guid s' | _ ∷ _ ↦ s' ]
  ]

  -- sendMetrics
  unfoldable pub send_metrics : R → Stream R → Stream R
  unfolding choose_best
  send_metrics crs s = elim s.conns [
    | [] ↦ emit_event (dropped_metric crs) s
    | _ ∷ _ ↦ elim (choose_best (values s.conns)) [
      | none ↦ s
      | some c ↦ record s {
        posts = s.posts ++ record { connection = c; results = crs; offset = c.clock_offset } ∷ [];
      }
    ]
  ]

  -- ReconcileChecks
  abbrev pub reconcile_checks : ChecksPreparation → Stream R → Stream R
  reconcile_checks cp s = record s { schedulers = map (hand_over cp) s.schedulers }

-- ValidateChecks: the error of the first scheduler that has one, in the order of the iteration
unfoldable pub validate_schedulers : ChecksPreparation → List Mailbox → Option ValidationError
validate_schedulers cp [] = none
validate_schedulers cp (m ∷ ms) = elim (validate_checks cp m.scheduler) [
  | none ↦ validate_schedulers cp ms
  | some e ↦ some e
]
