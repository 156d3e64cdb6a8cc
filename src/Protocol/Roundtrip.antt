-- ===== src/Protocol/Roundtrip.antt =====
-- What is written with the JSON of protocol/messages.go and protocol/check/check.go is read back.
use rackspace_monitoring_pol.Base.{
  ◌^◌, ◌<◌, String, ◌≡◌, ◌≢◌, refl, ap, true, Option, none, some, List, [], ◌∷◌, map, arith, All,
  lt→ltb,
}
use rackspace_monitoring_pol.Base.Int.{ℤ, pos, negsuc}
use rackspace_monitoring_pol.Base.Words.{InRange}
use rackspace_monitoring_pol.Base.Dict.{Dict}
use rackspace_monitoring_pol.Json.{
  Value, null, num, as_int, as_raw_ptr, as_string_ptr, list_items, from_list, fits_int,
}
use rackspace_monitoring_pol.Protocol.Checks.{
  CheckIn, string_map, from_string_map, ptr_value, raw_value, decode_check_in, encode_check_in,
  decode_check_ptr,
}
use rackspace_monitoring_pol.Protocol.Messages.{
  PollerPrepareManifest, PollerPrepareStartParams, PollerPrepareBlockParams, PollerPrepareEndParams,
  PollerCommitParams, PollerPrepareResult, decode_manifest, encode_manifest, decode_prepare_start,
  encode_prepare_start, decode_prepare_block, encode_prepare_block, check_ptr_value,
  decode_prepare_end, encode_prepare_end, decode_commit, encode_commit, decode_prepare_result,
  encode_prepare_result,
}

as_int-num : (z : ℤ) → InRange z → as_int (num z) ≡ z
as_int-num (pos n) h = ground arith
as_int-num (negsuc n) h = ground arith

list_items-from_list {ℓ} :
    {A : Type ℓ} (d : Value → A) (e : A → Value) (xs : List A)
    → All (λ x. d (e x) ≡ x) xs
    → list_items d (from_list e xs) ≡ xs
unfolding list_items from_list
list_items-from_list d e [] h = refl
list_items-from_list d e (x ∷ xs) h = cc (h.0, list_items-from_list d e xs h.1)

manifest_read : (m : PollerPrepareManifest) → decode_manifest (encode_manifest m) ≡ m
unfolding decode_manifest encode_manifest
manifest_read m = refl

manifests_read :
    (ms : List PollerPrepareManifest) → All (λ m. decode_manifest (encode_manifest m) ≡ m) ms
manifests_read [] = tt
manifests_read (m ∷ ms) = (manifest_read m, manifests_read ms)

-- A poller.prepare is read as it was written, if its version is an int64.
pub decode-encode_prepare_start :
    (p : PollerPrepareStartParams)
    → InRange p.version
    → decode_prepare_start (some (encode_prepare_start p)) ≡ p
unfolding decode_prepare_start encode_prepare_start
decode-encode_prepare_start p h = ground (
  arith,
  as_int-num p.version h,
  list_items-from_list decode_manifest encode_manifest p.manifest (manifests_read p.manifest),
)

string_map_read : (m : Dict String String) → string_map (from_string_map m) ≡ m
unfolding string_map from_string_map
string_map_read [] = refl
string_map_read ((k, v) ∷ m) = cc (string_map_read m)

ptr_read : (o : Option String) → as_string_ptr (ptr_value o) ≡ o
ptr_read none = refl
ptr_read (some s) = refl

raw_read : (o : Option Value) → o ≢ some null → as_raw_ptr (raw_value o) ≡ o
raw_read o h = ground arith

-- A check that its JSON can carry: its numbers are 64-bit, and its details are not a null.
pub record IsWritable (c : CheckIn) : Type 0 where
  pub period_fits : c.period < 2 ^ 64
  pub timeout_fits : c.timeout < 2 ^ 64
  pub details_present : c.raw_details ≢ some null

-- A check is read as it was written.
pub decode-encode_check_in : (c : CheckIn) → IsWritable c → decode_check_in (encode_check_in c) ≡ c
unfolding decode_check_in encode_check_in
decode-encode_check_in c w = rw (
  lt→ltb c.period (2 ^ 64) w.period_fits,
  lt→ltb c.timeout (2 ^ 64) w.timeout_fits,
  string_map_read c.ip_addresses,
  ptr_read c.target_alias,
  ptr_read c.target_hostname,
  raw_read c.raw_details w.details_present,
)

decode-check_ptr_value :
    (c : CheckIn) → IsWritable c → decode_check_ptr (check_ptr_value (some c)) ≡ some c
unfolding decode_check_ptr encode_check_in
decode-check_ptr_value c w = ap {B = Option CheckIn} some (decode-encode_check_in c w)

checks_read :
    (cs : List CheckIn)
    → All IsWritable cs
    → All (λ o. decode_check_ptr (check_ptr_value o) ≡ o) (map some cs)
checks_read [] h = tt
checks_read (c ∷ cs) h = (decode-check_ptr_value c h.0, checks_read cs h.1)

-- A poller.prepare.block is read as it was written, if its version is an int64, its checks can be
-- written, and none of them is nil.
pub decode-encode_prepare_block :
    (p : PollerPrepareBlockParams) (cs : List CheckIn)
    → InRange p.version
    → p.block ≡ map some cs
    → All IsWritable cs
    → decode_prepare_block (some (encode_prepare_block p)) ≡ p
unfolding decode_prepare_block encode_prepare_block
decode-encode_prepare_block p cs h e w = ground (
  arith,
  as_int-num p.version h,
  list_items-from_list decode_check_ptr check_ptr_value (map some cs) (checks_read cs w),
)

-- A poller.prepare.end is read as it was written, if its version is an int64.
pub decode-encode_prepare_end :
    (p : PollerPrepareEndParams)
    → InRange p.version
    → decode_prepare_end (some (encode_prepare_end p)) ≡ p
unfolding decode_prepare_end encode_prepare_end
decode-encode_prepare_end p h = ground (arith, as_int-num p.version h)

-- A poller.commit is read as it was written, if its version is an int64.
pub decode-encode_commit :
    (p : PollerCommitParams) → InRange p.version → decode_commit (some (encode_commit p)) ≡ p
unfolding decode_commit encode_commit
decode-encode_commit p h = ground (arith, as_int-num p.version h)

fits_int-num : (z : ℤ) → InRange z → fits_int (num z) ≡ true
unfolding fits_int
fits_int-num (pos n) h = ground arith
fits_int-num (negsuc n) h = ground arith

-- The result of a prepare or a commit is read as it was written, with no error, if its version is
-- an int64.
pub decode-encode_prepare_result :
    (p : PollerPrepareResult)
    → InRange p.version
    → decode_prepare_result (some (encode_prepare_result p)) ≡ some p
unfolding decode_prepare_result encode_prepare_result
decode-encode_prepare_result p h = ground (arith, as_int-num p.version h, fits_int-num p.version h)
