-- ===== src/Protocol/Methods.antt =====
-- protocol/methods.go and the string constants of protocol/messages.go.
use rackspace_monitoring_pol.Base.{String}

-- A response has no method name.
abbrev pub method_empty : String
method_empty = ""

abbrev pub method_handshake_hello : String
method_handshake_hello = "handshake.hello"

abbrev pub method_heartbeat_post : String
method_heartbeat_post = "heartbeat.post"

abbrev pub method_check_metrics_post_multi : String
method_check_metrics_post_multi = "check_metrics.post_multi"

abbrev pub method_host_info_get : String
method_host_info_get = "host_info.get"

abbrev pub method_poller_prepare : String
method_poller_prepare = "poller.prepare"

abbrev pub method_poller_prepare_block : String
method_poller_prepare_block = "poller.prepare.block"

abbrev pub method_poller_prepare_end : String
method_poller_prepare_end = "poller.prepare.end"

abbrev pub method_poller_commit : String
method_poller_commit = "poller.commit"

abbrev pub method_check_test : String
method_check_test = "check.test"

abbrev pub prepare_action_start : String
prepare_action_start = "start"

abbrev pub prepare_action_restart : String
prepare_action_restart = "restart"

abbrev pub prepare_action_continue : String
prepare_action_continue = "continue"

abbrev pub prepare_directive_prepare : String
prepare_directive_prepare = "prepare"

abbrev pub prepare_directive_abort : String
prepare_directive_abort = "abort"

abbrev pub prepare_result_status_prepared : String
prepare_result_status_prepared = "prepared"

abbrev pub prepare_result_status_aborted : String
prepare_result_status_aborted = "aborted"

abbrev pub prepare_result_status_failed : String
prepare_result_status_failed = "failed"

abbrev pub prepare_result_status_ignored : String
prepare_result_status_ignored = "ignored"

abbrev pub prepare_result_status_committed : String
prepare_result_status_committed = "committed"
