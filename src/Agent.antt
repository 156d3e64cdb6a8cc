-- ===== src/Agent.antt =====
-- endpoint/agent.go: the endpoint's side of one connected poller. Its coordinator goroutine takes
-- one bundle of checks or one response at a time; the frames that it writes are recorded in `sent`.
pub mod Blocks
pub mod Responses
pub mod Fresh
pub mod Classification
use rackspace_monitoring_pol.Base.{
  ℕ, ◌+◌, ◌%◌, ◌^◌, String, Bool, true, false, Option, none, some, List, [], ◌∷◌, ◌++◌, map, leb,
  length, str_eq, if◌then◌else◌,
}
use rackspace_monitoring_pol.Base.Int.{ℤ}
use rackspace_monitoring_pol.Base.Words.{signed}
use rackspace_monitoring_pol.Base.Dict.{Dict, nat_eq, lookup, insert, delete}
use rackspace_monitoring_pol.Base.Keys.{contains}
use rackspace_monitoring_pol.Base.Outcome.{Outcome, ok, panic, ◌>>=◌}
use rackspace_monitoring_pol.Json.{Value}
use rackspace_monitoring_pol.Protocol.Frame.{FrameMsg, protocol_version}
use rackspace_monitoring_pol.Protocol.Checks.{CheckIn}
use rackspace_monitoring_pol.Protocol.Messages.{
  PollerPrepareManifest, PollerPrepareResult, encode_prepare_start, encode_prepare_block,
  encode_prepare_end, encode_commit, decode_prepare_result,
}
use rackspace_monitoring_pol.Protocol.Methods.{
  method_poller_prepare, method_poller_prepare_block, method_poller_prepare_end,
  method_poller_commit, prepare_action_start, prepare_action_restart, prepare_directive_prepare,
  prepare_result_status_prepared, prepare_result_status_committed,
}

-- The time of sending, which is only logged, is left out.
pub record PendingPrepare : Type 0 where
  pub version : ℕ
  pub check_ids : List String
  pub committing : Bool

-- What the coordinator reads and writes; who the agent is plays no part there.
pub record Agent : Type 0 where
  pub prepare_block_size : ℕ
  pub out_msg_id : ℕ
  pub checks_version : ℕ
  -- nil until the first commit is confirmed
  pub committed_checks : Option (List String)
  pub pending_prepares : Dict ℕ PendingPrepare
  pub sent : List FrameMsg

pub record PrepareBundle : Type 0 where
  pub checks_to_start : List CheckIn
  pub checks_to_restart : List CheckIn
  pub unclassified : Option (List CheckIn)

-- newAgent, for the zones of the handshake: without any it is refused.
unfoldable pub new_agent : List String → ℕ → Option Agent
new_agent [] size = none
new_agent (zone ∷ zones) size = some (record {
  prepare_block_size = size;
  out_msg_id = 0;
  checks_version = 0;
  committed_checks = none;
  pending_prepares = [];
  sent = [];
})

-- The frame that sendTo writes.
abbrev pub frame_to : ℕ → String → Value → FrameMsg
frame_to id method params = record {
  version = protocol_version;
  id = id;
  target = "endpoint";
  source = "endpoint";
  method = method;
  error = none;
  raw_params = some params;
  raw_result = none;
}

abbrev pub next_id : ℕ → ℕ
next_id n = (n + 1) % 2 ^ 64

-- `a.sendTo(a.allocateMsgId(), method, params)`
unfoldable pub send_new : String → Value → Agent → Agent
send_new method params a = record a {
  out_msg_id = next_id a.out_msg_id;
  sent = a.sent ++ frame_to (next_id a.out_msg_id) method params ∷ [];
}

unfoldable pub new_manifest : String → CheckIn → PollerPrepareManifest
new_manifest action ch = record {
  action = action;
  id = ch.id;
  check_type = ch.check_type;
  entity_id = ch.entity_id;
  zone_id = ch.zone_id;
}

abbrev pub manifest_of : List CheckIn → List CheckIn → List PollerPrepareManifest
manifest_of to_start to_restart =
    map (new_manifest prepare_action_start) to_start
    ++ map (new_manifest prepare_action_restart) to_restart

abbrev pub check_ids_of : List CheckIn → List String
check_ids_of = map λ ch. ch.id

-- `int(a.checksVersion)`
abbrev pub version_of : Agent → ℤ
version_of a = signed a.checks_version

unfoldable pub send_block : List CheckIn → Agent → Agent
unfolding send_new
send_block block a =
    send_new method_poller_prepare_block
      (encode_prepare_block
        (record { zone_id = ""; version = version_of a; block = map some block }))
      a

-- What is left after the loop is sent if there is something left: the block that is being filled is
-- nil when it is empty.
unfoldable pub flush_block : List CheckIn → Agent → Agent
unfolding send_block
flush_block [] a = a
flush_block (c ∷ block) a = send_block (c ∷ block) a

-- The loop over the checks: a block is sent as soon as it is full.
unfoldable pub send_blocks : List CheckIn → List CheckIn → Agent → Agent
unfolding flush_block send_block
send_blocks [] block a = flush_block block a
send_blocks (ch ∷ chs) block a =
    let full = send_blocks chs [] (send_block (block ++ ch ∷ []) a) in
    let open_block = send_blocks chs (block ++ ch ∷ []) a in
    if leb a.prepare_block_size (length (block ++ ch ∷ [])) then full else open_block

-- The first part of prepareChecks: the new version, the pending prepare, and its message.
unfoldable pub announce : List CheckIn → List CheckIn → Agent → Agent
unfolding send_new new_manifest insert
announce to_start to_restart a =
    let a' : Agent = record a { checks_version = (a.checks_version + 1) % 2 ^ 64 } in
    send_new method_poller_prepare
      (encode_prepare_start (record {
        zone_id = "";
        version = version_of a';
        manifest = manifest_of to_start to_restart;
      }))
      (record a' {
        pending_prepares =
            insert (next_id a.out_msg_id)
              (record {
                version = a'.checks_version;
                check_ids = check_ids_of (to_start ++ to_restart);
                committing = false;
              })
              a.pending_prepares;
      })

unfoldable pub send_end : Agent → Agent
unfolding send_new
send_end a =
    send_new method_poller_prepare_end
      (encode_prepare_end
        (record { zone_id = ""; version = version_of a; directive = prepare_directive_prepare }))
      a

unfoldable pub prepare_checks : List CheckIn → List CheckIn → Agent → Agent
unfolding announce send_blocks send_end
prepare_checks to_start to_restart a =
    send_end (send_blocks (to_start ++ to_restart) [] (announce to_start to_restart a))

-- The classification of the coordinator: first the checks to start, then those to restart.
unfoldable pub classify : List String → List CheckIn → List CheckIn × List CheckIn
classify committed [] = ([], [])
classify committed (ch ∷ chs) =
    let (to_start, to_restart) = classify committed chs in
    if contains committed ch.id then (ch ∷ to_start, to_restart) else (to_start, ch ∷ to_restart)

-- The set is nil before the first commit: a question to it crashes, once there is a check to ask for.
unfoldable pub classify_bundle :
    Option (List String) → List CheckIn → Outcome (List CheckIn × List CheckIn)
unfolding classify
classify_bundle committed [] = ok ([], [])
classify_bundle none (ch ∷ chs) = panic
classify_bundle (some committed) (ch ∷ chs) = ok (classify committed (ch ∷ chs))

-- The branch of the coordinator that takes a bundle.
unfoldable pub take_bundle : PrepareBundle → Agent → Outcome Agent
unfolding classify_bundle prepare_checks
take_bundle b a = elim b.unclassified [
  | none ↦ ok (prepare_checks b.checks_to_start b.checks_to_restart a)
  | some chs ↦ do p ← classify_bundle a.committed_checks chs; ok (prepare_checks p.0 p.1 a)
]

-- handlePollerPrepareResponse
unfoldable pub handle_prepare_response :
    FrameMsg → PollerPrepareResult → PendingPrepare → Agent → Agent
unfolding send_new insert delete
handle_prepare_response f r pending a =
    if str_eq r.status prepare_result_status_prepared
    then send_new method_poller_commit
        (encode_commit (record { zone_id = ""; version = signed pending.version }))
        (record a {
          pending_prepares =
              insert (next_id a.out_msg_id) (record pending { committing = true })
                (delete f.id a.pending_prepares);
        })
    else record a { pending_prepares = delete f.id a.pending_prepares }

-- handlePollerCommitResponse
unfoldable pub handle_commit_response :
    FrameMsg → PollerPrepareResult → PendingPrepare → Agent → Agent
unfolding delete
handle_commit_response f r pending a =
    if str_eq r.status prepare_result_status_committed
    then record a {
      committed_checks = some pending.check_ids;
      pending_prepares = delete f.id a.pending_prepares;
    }
    else a

unfoldable pub dispatch_result : FrameMsg → PendingPrepare → Agent → Agent
unfolding handle_prepare_response handle_commit_response
dispatch_result f pending a = elim (decode_prepare_result f.raw_result) [
  | none ↦ a
  | some r ↦
      if pending.committing
      then handle_commit_response f r pending a
      else handle_prepare_response f r pending a
]

-- handleResponse of the agent
unfoldable pub handle_response : FrameMsg → Agent → Agent
unfolding lookup dispatch_result
handle_response f a = elim (lookup f.id a.pending_prepares) [
  | none ↦ a
  | some pending ↦ dispatch_result f pending a
]
