-- ===== src/SmartConn/Heartbeats.antt =====
-- Writes and heartbeats of utils/smart_conn.go.
use mathlib.Core.List.{append-nil, append_assoc}
use rackspace_monitoring_pol.Base.{
  ℕ, zero, suc, String, true, false, none, some, List, [], ◌∷◌, ◌++◌, ◌≡◌, refl, sym, ap,
  Bool-cases, inl, inr, ◌==◌, arith,
}
use rackspace_monitoring_pol.Base.Int.{pos, ◌+ℤ◌}
use rackspace_monitoring_pol.Base.Words.{wrap64}
use rackspace_monitoring_pol.Base.Outcome.{ok, blocked, ◌>>=◌}
use rackspace_monitoring_pol.SmartConn.{
  Call, written, set_write_deadline, running, idle, SmartConn, told, with_timer, write_calls,
  observed_read, start, close, write, write_all, send_heartbeat,
}

-- What the managed connection is told for writes under a write allowance.
abbrev pub deadline_calls : ℕ → ℕ → List String → List Call
deadline_calls now allowance [] = []
deadline_calls now zero (p ∷ ps) = written p ∷ deadline_calls now zero ps
deadline_calls now (suc n) (p ∷ ps) =
    set_write_deadline (some (pos now +ℤ wrap64 (pos (suc n))))
    ∷ written p
    ∷ set_write_deadline none
    ∷ deadline_calls now (suc n) ps

not_zero : (n : ℕ) → (suc n == 0) ≡ false
not_zero n = ground arith

deadline_calls-cons :
    (now : ℕ) (p : String) (ps : List String) (allowance : ℕ)
    → write_calls now p allowance ++ deadline_calls now allowance ps
      ≡ deadline_calls now allowance (p ∷ ps)
deadline_calls-cons now p ps zero = refl
deadline_calls-cons now p ps (suc n) = rw (not_zero n) refl

write-running :
    (now : ℕ) (p : String) (c : SmartConn)
    → c.heartbeat_timer ≡ some running
    → write now p c ≡ ok (with_timer running (told (write_calls now p c.write_allowance) c))
unfolding write
write-running now p c h = rw (write, h) refl

write-idle :
    (now : ℕ) (p : String) (c : SmartConn) → c.heartbeat_timer ≡ some idle → write now p c ≡ blocked
unfolding write
write-idle now p c h = rw (write, h) refl

told-nil : (c : SmartConn) → c.heartbeat_timer ≡ some running → c ≡ with_timer running (told [] c)
told-nil c h = λ i. record c { heartbeat_timer = h i; calls = sym (append-nil c.calls) i }

write_all-running :
    (now : ℕ) (ps : List String) (c : SmartConn)
    → c.heartbeat_timer ≡ some running
    → write_all now ps c
      ≡ ok (with_timer running (told (deadline_calls now c.write_allowance ps) c))
write_all-running now [] c h = ap ok (told-nil c h)
write_all-running now (p ∷ ps) c h =
    rw
      (
        write-running now p c h,
        write_all-running now ps (with_timer running (told (write_calls now p c.write_allowance) c))
            refl,
        append_assoc c.calls (write_calls now p c.write_allowance)
            (deadline_calls now c.write_allowance ps),
        deadline_calls-cons now p ps c.write_allowance,
      )
      refl

start-running :
    (now : ℕ) (c : SmartConn)
    → c.has_heartbeat_sender ≡ true
    → (c.heartbeat_send_interval == 0) ≡ false
    → (start now none c).0.heartbeat_timer ≡ some running
unfolding start observed_read
start-running now c sends often = elim (Bool-cases (c.read_keepalive == 0)) [
  | inl e ↦ rw (start, e, sends, often) refl
  | inr e ↦ rw (start, observed_read, e, sends, often) refl
]

-- The timer of a connection that sends heartbeats runs once it is started and goes on running through
-- any writes, which all go through: with a write allowance each has its deadline, the time of the write
-- and the allowance, set before and cleared behind it, and without one no deadline is set. But the
-- heartbeat that follows, if it writes anything, hangs for ever, and so does any write after the
-- connection was closed: Write receives from the channel of a timer that has none.
pub send_heartbeat-hangs :
    (c : SmartConn) (started now : ℕ) (ps : List String) (message : String) (more : List String)
    (p : String)
    → c.has_heartbeat_sender ≡ true
    → (c.heartbeat_send_interval == 0) ≡ false
    → let s = (start started none c).0 in
      (write_all now ps s
        ≡ ok (with_timer running (told (deadline_calls now s.write_allowance ps) s)))
      × ((write_all now ps s >>= send_heartbeat now (message ∷ more)) ≡ blocked)
      × ((write_all now ps s >>= λ written. write now p (close written)) ≡ blocked)
unfolding send_heartbeat close
send_heartbeat-hangs c started now ps message more p sends often =
    let s = (start started none c).0 in
    let writes = write_all-running now ps s (start-running started c sends often) in
    (
      writes,
      rw
          (
            writes,
            write-idle now message
                (with_timer idle (told (deadline_calls now s.write_allowance ps) s)) refl,
          )
          refl,
      rw
          (
            writes,
            write-idle now p
                (close (with_timer running (told (deadline_calls now s.write_allowance ps) s)))
                refl,
          )
          refl,
    )
