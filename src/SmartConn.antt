-- ===== src/SmartConn.antt =====
-- utils/smart_conn.go: SmartConn, a connection that keeps its deadlines and sends heartbeats. Times and
-- durations are in nanoseconds; a duration is not below zero. What the managed connection is told is
-- recorded in `calls`.
pub mod Heartbeats
use rackspace_monitoring_pol.Base.{
  ℕ, String, Bool, true, false, ◌+◌, ◌/◌, Option, none, some, List, [], ◌∷◌, ◌++◌, ◌==◌, not, ◌&&◌,
  if◌then◌else◌,
}
use rackspace_monitoring_pol.Base.Int.{ℤ, pos, ◌+ℤ◌}
use rackspace_monitoring_pol.Base.Words.{wrap64}
use rackspace_monitoring_pol.Base.Outcome.{Outcome, ok, panic, blocked, ◌>>=◌}

abbrev read_keepalive_tolerance : ℕ
read_keepalive_tolerance = 2

-- The zero time, which clears a deadline, is none.
pub data Call : Type 0 where
  set_read_deadline : ℤ → Call
  set_write_deadline : Option ℤ → Call
  written : String → Call
  was_read : Call
  was_closed : Call

-- A timer of time.AfterFunc: it runs, or it was stopped or has fired. Its field C is nil.
pub data Timer : Type 0 where
  running idle : Timer

pub record SmartConn : Type 0 where
  pub write_allowance : ℕ
  pub read_keepalive : ℕ
  pub has_heartbeat_sender : Bool
  pub heartbeat_send_interval : ℕ
  pub heartbeat_timer : Option Timer
  pub calls : List Call

abbrev pub new_smart_conn : SmartConn
new_smart_conn = record {
  write_allowance = 0;
  read_keepalive = 0;
  has_heartbeat_sender = false;
  heartbeat_send_interval = 0;
  heartbeat_timer = none;
  calls = [];
}

abbrev pub told : List Call → SmartConn → SmartConn
told cs c = record c { calls = c.calls ++ cs }

abbrev pub with_timer : Timer → SmartConn → SmartConn
with_timer t c = record c { heartbeat_timer = some t }

-- time.Now().Add
abbrev after : ℕ → ℤ → ℤ
after now d = pos now +ℤ wrap64 d

unfoldable pub observed_read : ℕ → SmartConn → SmartConn
observed_read now c =
    if c.read_keepalive == 0
    then c
    else told
        (set_read_deadline
            (after now (pos (c.read_keepalive + c.read_keepalive / read_keepalive_tolerance)))
          ∷ [])
        c

abbrev start_timer : SmartConn → SmartConn
start_timer c =
    if c.has_heartbeat_sender && not (c.heartbeat_send_interval == 0)
    then with_timer running c
    else c

-- The connection may refuse the deadline.
unfoldable pub start : ℕ → Option String → SmartConn → SmartConn × Option String
unfolding observed_read
start now refusal c = if c.read_keepalive == 0 then (start_timer c, none) else elim refusal [
  | some e ↦ (observed_read now c, some e)
  | none ↦ (start_timer (observed_read now c), none)
]

unfoldable pub close : SmartConn → SmartConn
close c = told (was_closed ∷ []) (elim c.heartbeat_timer [ none ↦ c | some t ↦ with_timer idle c ])

-- Stop tells that the timer was idle already: the code then receives from its nil channel.
abbrev pub stop_timer : Option Timer → SmartConn → Outcome SmartConn
stop_timer none c = ok c
stop_timer (some running) c = ok (with_timer idle c)
stop_timer (some idle) c = blocked

abbrev pub reset_timer : Option Timer → SmartConn → SmartConn
reset_timer none c = c
reset_timer (some t) c = with_timer running c

-- The calls of a write, which clears its deadline behind it.
abbrev pub write_calls : ℕ → String → ℕ → List Call
write_calls now p allowance =
    if allowance == 0
    then written p ∷ []
    else set_write_deadline (some (after now (pos allowance)))
      ∷ written p
      ∷ set_write_deadline none
      ∷ []

unfoldable pub write : ℕ → String → SmartConn → Outcome SmartConn
write now p c = stop_timer c.heartbeat_timer c >>= λ stopped.
    ok (reset_timer c.heartbeat_timer (told (write_calls now p c.write_allowance) stopped))

unfoldable pub read : ℕ → SmartConn → SmartConn
read now c = told (was_read ∷ []) (observed_read now c)

abbrev pub write_all : ℕ → List String → SmartConn → Outcome SmartConn
write_all now [] c = ok c
write_all now (p ∷ ps) c = write now p c >>= write_all now ps

-- The timer fires: the sender writes its messages, and the timer is reset.
unfoldable pub send_heartbeat : ℕ → List String → SmartConn → Outcome SmartConn
send_heartbeat now messages c =
    write_all now messages (with_timer idle c) >>= λ sent. ok (with_timer running sent)
