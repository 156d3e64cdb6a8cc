-- ===== src/Examples/Data.antt =====
-- Test data: two checks, a session, an agent, a scheduler.
use rackspace_monitoring_pol.Base.{Bool, true, Option, none, some, [], ◌∷◌, arith}
use rackspace_monitoring_pol.Base.Int.{pos}
use rackspace_monitoring_pol.Json.{num, object}
use rackspace_monitoring_pol.Protocol.Checks.{CheckIn, empty_check_in}
use rackspace_monitoring_pol.Protocol.Frame.{FrameMsg, empty_frame}
use rackspace_monitoring_pol.Protocol.Roundtrip.{IsWritable}
use rackspace_monitoring_pol.Preparation.{ChecksPreparation, ActionableCheck, start, restart}
use rackspace_monitoring_pol.Session.State.{Session, new_session, with_prep, Timer}
use rackspace_monitoring_pol.Agent.{Agent}

abbrev pub tcp_check : CheckIn
tcp_check = record empty_check_in {
  id = "ch1";
  check_type = "remote.tcp";
  period = 30;
  timeout = 10;
  raw_details = some (object (("port", num (pos 80)) ∷ []));
}

abbrev pub ping_check : CheckIn
ping_check = record empty_check_in {
  id = "ch2";
  check_type = "remote.ping";
  period = 60;
  timeout = 15;
  raw_details = some (object (("count", num (pos 5)) ∷ []));
}

pub tcp_check-IsWritable : IsWritable tcp_check
tcp_check-IsWritable = record {
  period_fits = omega arith;
  timeout_fits = omega arith;
  details_present = λ e. cc;
}

pub ping_check-IsWritable : IsWritable ping_check
ping_check-IsWritable = record {
  period_fits = omega arith;
  timeout_fits = omega arith;
  details_present = λ e. cc;
}

abbrev pub agent_at_start : Agent
agent_at_start = record {
  prepare_block_size = 1;
  out_msg_id = 7;
  checks_version = 2;
  committed_checks = none;
  pending_prepares = [];
  sent = [];
}

-- An actionable check and a preparation with one.
abbrev pub started : CheckIn → ActionableCheck
started c = record { check_in = c; action = start; populated = true }

abbrev pub restarted : CheckIn → ActionableCheck
restarted c = record { check_in = c; action = restart; populated = true }

abbrev pub one_check : ChecksPreparation
one_check = record { zone_id = "z"; version = pos 3; actions = ("ch1", started tcp_check) ∷ [] }

abbrev pub request : FrameMsg
request = record empty_frame { version = "1"; id = 8; method = "poller.prepare" }

-- A session with that preparation under way, its timer as given.
abbrev pub preparing : Bool → Option Timer → Session
preparing done timer =
    let s = new_session "guid" in
    with_prep s (record s.prep {
      active_prep = some one_check;
      src_prep_msg = some request;
      prepared = done;
      prepare_to_end_timer = timer;
    })
