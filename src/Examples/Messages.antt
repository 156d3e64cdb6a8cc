-- ===== src/Examples/Messages.antt =====
-- The round trips of protocol/messages.go and protocol/check/check.go, at concrete messages.
use rackspace_monitoring_pol.Base.{◌≡◌, refl, some, [], ◌∷◌, map, arith}
use rackspace_monitoring_pol.Base.Int.{pos}
use rackspace_monitoring_pol.Protocol.Messages.{
  PollerPrepareBlockParams, PollerPrepareResult, decode_prepare_block, encode_prepare_block,
}
use rackspace_monitoring_pol.Protocol.Roundtrip.{decode-encode_prepare_block}
use rackspace_monitoring_pol.Examples.Data.{
  tcp_check, ping_check, tcp_check-IsWritable, ping_check-IsWritable,
}

abbrev block : PollerPrepareBlockParams
block = record { zone_id = "z"; version = pos 3; block = map some (tcp_check ∷ ping_check ∷ []) }

decode-encode_prepare_block_example :
    decode_prepare_block (some (encode_prepare_block block)) ≡ block
decode-encode_prepare_block_example =
    decode-encode_prepare_block block (tcp_check ∷ ping_check ∷ []) (omega arith, omega arith) refl
      (tcp_check-IsWritable, (ping_check-IsWritable, tt))

abbrev result : PollerPrepareResult
result = record { zone_id = "z"; version = pos 3; status = "prepared"; details = "" }
