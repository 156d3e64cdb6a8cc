-- ===== src/Examples/Agents.antt =====
-- The theorems on endpoint/agent.go, at concrete agents and responses.
use mathlib.Core.List.{flatten}
use mathlib.Core.List.{Perm}
use rackspace_monitoring_pol.Base.{◌++◌, ◌≡◌, refl, true, false, some, [], ◌∷◌, ◌++◌, arith, All}
use rackspace_monitoring_pol.Base.Int.{pos}
use rackspace_monitoring_pol.Base.Words.{signed}
use rackspace_monitoring_pol.Base.Dict.{nat_eq, lookup}
use rackspace_monitoring_pol.Base.Keys.{contains}
use rackspace_monitoring_pol.Protocol.Frame.{FrameMsg, empty_frame}
use rackspace_monitoring_pol.Protocol.Messages.{
  PollerPrepareResult, encode_prepare_result, decode_prepare_result,
}
use rackspace_monitoring_pol.Agent.{
  Agent, PendingPrepare, PrepareBundle, prepare_checks, handle_response, next_id, classify,
}
use rackspace_monitoring_pol.Agent.Blocks.{
  IsCut, split, start_frame, block_frames, end_frame, ids_after, prepare_checks-frames,
}
use rackspace_monitoring_pol.Agent.Responses.{ResponseEffect, handle_response-effect}
use rackspace_monitoring_pol.Agent.Classification.{classify-parts}
use rackspace_monitoring_pol.Examples.Data.{tcp_check, ping_check, agent_at_start}

prepare_checks-frames_example :
    let a = agent_at_start in
    let bs = split 1 (tcp_check ∷ ping_check ∷ []) [] in
    let a' = prepare_checks (tcp_check ∷ []) (ping_check ∷ []) a in
    IsCut 1 bs
    × (flatten bs ≡ tcp_check ∷ ping_check ∷ [])
    × (a'.checks_version ≡ 3)
    × (a'.sent
        ≡ []
          ++ start_frame (tcp_check ∷ []) (ping_check ∷ []) a
            ∷ (block_frames (signed 3) 8 bs
                ++ end_frame (next_id (ids_after 8 bs)) (signed 3) ∷ []))
prepare_checks-frames_example =
    prepare_checks-frames (tcp_check ∷ []) (ping_check ∷ []) agent_at_start (omega arith)

abbrev committing : PendingPrepare
committing = record { version = 3; check_ids = "ch1" ∷ []; committing = true }

abbrev waiting_agent : Agent
waiting_agent = record agent_at_start { out_msg_id = 10; pending_prepares = (9, committing) ∷ [] }

abbrev result : PollerPrepareResult
result = record { zone_id = ""; version = pos 3; status = "committed"; details = "" }

abbrev response : FrameMsg
response = record empty_frame { id = 9; raw_result = some (encode_prepare_result result) }

handle_response-effect_example :
    ResponseEffect 9 result committing waiting_agent (handle_response response waiting_agent)
unfolding lookup decode_prepare_result encode_prepare_result
handle_response-effect_example =
    handle_response-effect response result committing waiting_agent refl refl

classify-parts_example :
    let (to_start, to_restart) = classify ("ch1" ∷ []) (tcp_check ∷ ping_check ∷ []) in
    All (λ ch. contains ("ch1" ∷ []) ch.id ≡ true) to_start
    × All (λ ch. contains ("ch1" ∷ []) ch.id ≡ false) to_restart
    × Perm (to_start ++ to_restart) (tcp_check ∷ ping_check ∷ [])
classify-parts_example = classify-parts ("ch1" ∷ []) (tcp_check ∷ ping_check ∷ [])

abbrev bundle : PrepareBundle
bundle = record {
  checks_to_start = [];
  checks_to_restart = [];
  unclassified = some (tcp_check ∷ []);
}
