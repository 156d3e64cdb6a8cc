-- ===== src/Tracker/Serve.antt =====
-- endpoint/basic_server.go: one connection of a poller, from what its decoder gives to the registry. The
-- goroutine that waits for an error of the agent only closes the connection, which ends the frames.
use Prim.Native.String.{◌++◌ as text_append}
use rackspace_monitoring_pol.Base.{
  ℕ, ◌*◌, String, Bool, Option, some, none, List, [], ◌∷◌, ◌++◌, length, ltb, str_eq, ◌==◌, ◌&&◌,
  if◌then◌else◌,
}
use rackspace_monitoring_pol.Base.Int.{ℤ}
use rackspace_monitoring_pol.Base.Outcome.{Outcome, ok, blocked, ◌>>=◌}
use rackspace_monitoring_pol.Json.{Value}
use rackspace_monitoring_pol.Protocol.Frame.{FrameMsg}
use rackspace_monitoring_pol.Protocol.Methods.{
  method_empty, method_handshake_hello, method_heartbeat_post, method_check_metrics_post_multi,
}
use rackspace_monitoring_pol.Protocol.Messages.{HandshakeParameters}
use rackspace_monitoring_pol.Tracker.{
  Tracker, greeter_chan_size, metrics_posts_chan_size, new_agent_from_hello, close_agent_by_addr,
  handle_check_metrics_post, handle_response,
}

abbrev expected_agent_heartbeat_sec : ℕ
expected_agent_heartbeat_sec = 60

-- The answers written, with the id of the request: to a hello the interval of the heartbeats, to a
-- heartbeat the time.
pub data Reply : Type 0 where
  handshake_response : ℕ → ℕ → Reply
  heartbeat_response : ℕ → ℤ → Reply

pub record Served {ℓ} (M : Type ℓ) : Type ℓ where
  pub tracker : Tracker M
  pub replies : List Reply

-- A frame, with the agent object that it may create and the time of its handling; or what is no frame.
pub data Incoming : Type 0 where
  decoded : ℕ → ℤ → FrameMsg → Incoming
  undecodable : Incoming

-- FrameMsg.IsFinished, which an empty object that was decoded satisfies too.
unfoldable pub is_finished : FrameMsg → Bool
is_finished f =
    str_eq f.version ""
    && f.id == 0
    && str_eq f.target ""
    && str_eq f.source ""
    && str_eq f.method ""

-- How the handler of a connection ends: after the last frame, with an error, or never, as the decoder
-- has given up without a word.
pub data End : Type 0 where
  finished : End
  failed : String → End
  waiting : End

module _ {ℓ} {M : Type ℓ} where
  abbrev pub reply : Reply → Served M → Served M
  reply r s = record s { replies = s.replies ++ r ∷ [] }

  -- The two sends block on a full channel.
  abbrev pub when_room : Bool → Served M → Outcome (Served M × Option String)
  when_room room s = if room then ok (s, none) else blocked

  -- `read_hello` and `read_post` are json.Unmarshal into the two structs.
  module _ (read_hello : Option Value → Option HandshakeParameters)
      (read_post : Option Value → Option M) (addr : ℕ) where
    unfoldable pub say_hello :
        ℕ → FrameMsg → List String → Served M → Outcome (Served M × Option String)
    unfolding new_agent_from_hello
    say_hello handle f [] s = ok (
      record s {
        tracker =
            new_agent_from_hello addr (record { handle = handle; source_id = f.source }) []
              s.tracker;
      },
      none,
    )
    say_hello handle f (z ∷ zs) s =
        when_room (ltb (length s.tracker.agents_to_greet) greeter_chan_size) (record s {
          tracker =
              new_agent_from_hello addr (record { handle = handle; source_id = f.source }) (z ∷ zs)
                s.tracker;
        })

    unfoldable pub handle_frame : ℕ → ℤ → FrameMsg → Served M → Outcome (Served M × Option String)
    unfolding say_hello handle_check_metrics_post handle_response
    handle_frame handle now f s =
        if str_eq f.method method_handshake_hello
        then elim (read_hello f.raw_params) [
          | none ↦ ok (s, some "unmarshal")
          | some p ↦
              say_hello handle f p.zone_ids
                (reply (handshake_response f.id (expected_agent_heartbeat_sec * 1000)) s)
        ]
        else if str_eq f.method method_check_metrics_post_multi
        then elim (read_post f.raw_params) [
          | none ↦ ok (s, some "unmarshal")
          | some p ↦
              when_room (ltb (length s.tracker.metrics_posts) metrics_posts_chan_size)
                (record s { tracker = handle_check_metrics_post f.source p s.tracker })
        ]
        else if str_eq f.method method_heartbeat_post
        then ok (reply (heartbeat_response f.id now) s, none)
        else if str_eq f.method method_empty
        then (handle_response f s.tracker >>= λ t. ok (record s { tracker = t }, none))
        else ok (s, some (text_append "Unsupported method: " f.method))

    abbrev pub end_frames : Served M → Outcome (Served M × End)
    end_frames s = ok (record s { tracker = close_agent_by_addr addr s.tracker }, finished)

    -- runConnectionHandler, with runFrameDecoder
    unfoldable pub run_connection_handler : List Incoming → Served M → Outcome (Served M × End)
    unfolding handle_frame close_agent_by_addr is_finished
    run_connection_handler [] s = end_frames s
    run_connection_handler (undecodable ∷ rest) s = ok (s, waiting)
    run_connection_handler (decoded handle now f ∷ rest) s =
        if is_finished f
        then end_frames s
        else handle_frame handle now f s >>= λ handled. elim handled.1 [
          | none ↦ run_connection_handler rest handled.0
          | some e ↦ ok (handled.0, failed e)
        ]
