-- ===== src/Session/State.antt =====
-- The state of a session (EleSession and prepDetails of poller/session.go), and its timers.
use rackspace_monitoring_pol.Base.{ℕ, String, Bool, false, Option, none, some, List, []}
use rackspace_monitoring_pol.Base.Int.{ℤ, pos}
use rackspace_monitoring_pol.Base.Dict.{Dict}
use rackspace_monitoring_pol.Base.Outcome.{Outcome, ok, panic, blocked}
use rackspace_monitoring_pol.Protocol.Frame.{FrameMsg}
use rackspace_monitoring_pol.Preparation.{ChecksPreparation}
use rackspace_monitoring_pol.Timing.{TimeLatencyTracking}

-- A time.Timer: it runs; it has fired, and its tick waits in its channel; or it is stopped (or its
-- tick was taken), and its channel is empty.
pub data Timer : Type 0 where
  running fired stopped : Timer

-- t.Stop()
abbrev pub stop : Timer → Timer
stop running = stopped
stop fired = fired
stop stopped = stopped

-- `if !t.Stop() { <-t.C }; t.Reset(d)`, on a pointer that may be nil.
unfoldable pub rearm : Option Timer → Outcome Timer
rearm none = panic
rearm (some running) = ok running
rearm (some fired) = ok running
rearm (some stopped) = blocked

pub record PrepDetails : Type 0 where
  pub active_prep : Option ChecksPreparation
  pub newest_committed_version : ℤ
  pub src_prep_msg : Option FrameMsg
  pub prepared : Bool
  pub prepare_to_end_timer : Option Timer

-- prepDetails.clear
unfoldable pub clear : PrepDetails → PrepDetails
clear p = record p {
  active_prep = none;
  src_prep_msg = none;
  prepared = false;
  prepare_to_end_timer = none;
}

pub record CompletionFrame : Type 0 where
  pub id : ℕ
  pub method : String

pub record Measurement : Type 0 where
  pub tracking : TimeLatencyTracking
  pub expected_seq_id : ℕ
  pub offset : ℤ
  pub latency : ℤ
  pub observations : ℕ

-- The events that a session emits to its consumers.
pub data Event : Type 0 where
  send_error : Event
  read_error : FrameMsg → String → Event
  auth_timeout : Event

pub record Session : Type 0 where
  pub guid : String
  pub prep : PrepDetails
  pub seq : ℕ
  pub completions : Dict ℕ CompletionFrame
  pub send_ch : List FrameMsg
  pub written : List FrameMsg
  pub auth_timer : Option Timer
  pub heartbeat_interval : ℤ
  pub heartbeats_started : Bool
  pub heartbeat_responses : List FrameMsg
  pub measurement : Measurement
  pub authenticated : Bool
  pub connection_closed : Bool
  pub cancelled : Bool
  pub events : List Event
  pub reconciled : List ChecksPreparation
  pub spawned : List FrameMsg

abbrev pub with_prep : Session → PrepDetails → Session
with_prep s p = record s { prep = p }

-- NewSession, before it calls Auth
unfoldable pub new_session : String → Session
new_session guid = record {
  guid = guid;
  prep = record {
    active_prep = none;
    newest_committed_version = pos 0;
    src_prep_msg = none;
    prepared = false;
    prepare_to_end_timer = none;
  };
  seq = 0;
  completions = [];
  send_ch = [];
  written = [];
  auth_timer = none;
  heartbeat_interval = pos 0;
  heartbeats_started = false;
  heartbeat_responses = [];
  measurement = record {
    tracking = record {
      poller_send_timestamp = pos 0;
      poller_recv_timestamp = pos 0;
      server_recv_timestamp = pos 0;
      server_resp_timestamp = pos 0;
    };
    expected_seq_id = 0;
    offset = pos 0;
    latency = pos 0;
    observations = 0;
  };
  authenticated = false;
  connection_closed = false;
  cancelled = false;
  events = [];
  reconciled = [];
  spawned = [];
}
