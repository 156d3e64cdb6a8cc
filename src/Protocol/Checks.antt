-- ===== src/Protocol/Checks.antt =====
-- protocol/check/check.go: a check as it travels, its header and its raw details.
use rackspace_monitoring_pol.Base.{ℕ, String, Bool, false, Option, none, some, [], ◌∷◌}
use rackspace_monitoring_pol.Base.Int.{pos}
use rackspace_monitoring_pol.Base.Dict.{Dict}
use rackspace_monitoring_pol.Json.{
  Value, null, bool, num, str, obj, Fields, end, field, get, as_string, as_uint, as_bool,
  as_string_ptr, as_raw_ptr, object,
}

pub record CheckIn : Type 0 where
  pub id : String
  pub check_type : String
  pub period : ℕ
  pub timeout : ℕ
  pub entity_id : String
  pub zone_id : String
  pub disabled : Bool
  pub ip_addresses : Dict String String
  pub target_alias : Option String
  pub target_hostname : Option String
  pub target_resolver : String
  pub raw_details : Option Value

-- `check.CheckIn{}`
abbrev pub empty_check_in : CheckIn
empty_check_in = record {
  id = "";
  check_type = "";
  period = 0;
  timeout = 0;
  entity_id = "";
  zone_id = "";
  disabled = false;
  ip_addresses = [];
  target_alias = none;
  target_hostname = none;
  target_resolver = "";
  raw_details = none;
}

unfoldable pub string_map : Fields → Dict String String
string_map end = []
string_map (field k v r) = (k, as_string v) ∷ string_map r

unfoldable pub from_string_map : Dict String String → Fields
from_string_map [] = end
from_string_map ((k, v) ∷ r) = field k (str v) (from_string_map r)

unfoldable pub as_string_map : Value → Dict String String
unfolding string_map
as_string_map (obj fs) = string_map fs
as_string_map _ = []

abbrev pub ptr_value : Option String → Value
ptr_value none = null
ptr_value (some s) = str s

abbrev pub raw_value : Option Value → Value
raw_value none = null
raw_value (some v) = v

unfoldable pub decode_check_in : Value → CheckIn
unfolding get as_string_map
decode_check_in v = record {
  id = as_string (get "id" v);
  check_type = as_string (get "type" v);
  period = as_uint (get "period" v);
  timeout = as_uint (get "timeout" v);
  entity_id = as_string (get "entity_id" v);
  zone_id = as_string (get "zone_id" v);
  disabled = as_bool (get "disabled" v);
  ip_addresses = as_string_map (get "ip_addresses" v);
  target_alias = as_string_ptr (get "target_alias" v);
  target_hostname = as_string_ptr (get "target_hostname" v);
  target_resolver = as_string (get "target_resolver" v);
  raw_details = as_raw_ptr (get "details" v);
}

unfoldable pub encode_check_in : CheckIn → Value
unfolding from_string_map
encode_check_in c = object (
    ("id", str c.id)
    ∷ ("type", str c.check_type)
    ∷ ("period", num (pos c.period))
    ∷ ("timeout", num (pos c.timeout))
    ∷ ("entity_id", str c.entity_id)
    ∷ ("zone_id", str c.zone_id)
    ∷ ("disabled", bool c.disabled)
    ∷ ("ip_addresses", obj (from_string_map c.ip_addresses))
    ∷ ("target_alias", ptr_value c.target_alias)
    ∷ ("target_hostname", ptr_value c.target_hostname)
    ∷ ("target_resolver", str c.target_resolver)
    ∷ ("details", raw_value c.raw_details)
    ∷ [])

-- `[]*check.CheckIn`: a null among the checks is a nil pointer.
unfoldable pub decode_check_ptr : Value → Option CheckIn
unfolding decode_check_in
decode_check_ptr null = none
decode_check_ptr v = some (decode_check_in v)
