-- ===== src/Config/Entries.antt =====
-- The entries of config/config.go: DefineConfigEntries, IsAllowed and ApplyMask. A pointer into the
-- configuration is the function that writes through it.
use Prim.Native.String.{len, ◌++◌ as text_append}
use rackspace_monitoring_pol.Base.{
  ℕ, zero, suc, String, Bool, true, false, Option, none, some, List, [], ◌∷◌, if◌then◌else◌,
}
use rackspace_monitoring_pol.Base.Keys.{contains}
use rackspace_monitoring_pol.Config.{Config}

pub data ValuePtr (Url : Type 0) : Type 0 where
  text_ptr : (String → Config Url → Config Url) → ValuePtr Url
  texts_ptr : (List String → Config Url → Config Url) → ValuePtr Url
  url_ptr : (Url → Config Url → Config Url) → ValuePtr Url
  other_ptr : ValuePtr Url

pub record ConfigEntry (Url : Type 0) : Type 0 where
  pub name : String
  pub value_ptr : ValuePtr Url
  pub tweak : Option (Config Url → Config Url)
  pub allowed : List String
  pub sensitive : Bool

abbrev pub valid_snet_regions : List String
valid_snet_regions = "dfw" ∷ "ord" ∷ "lon" ∷ "syd" ∷ "hkg" ∷ "iad" ∷ []

abbrev entry : {Url : Type 0} → String → ValuePtr Url → ConfigEntry Url
entry n p = record { name = n; value_ptr = p; tweak = none; allowed = []; sensitive = false }

abbrev pub id_entry : {Url : Type 0} → ConfigEntry Url
id_entry = entry "monitoring_id" (text_ptr (λ v cfg. record cfg { agent_id = v }))

abbrev pub token_entry : {Url : Type 0} → ConfigEntry Url
token_entry = record (entry "monitoring_token" (text_ptr (λ v cfg. record cfg { token = v }))) {
  sensitive = true;
}

abbrev pub zones_entry : {Url : Type 0} → ConfigEntry Url
zones_entry = entry "monitoring_private_zones" (texts_ptr (λ v cfg. record cfg { zone_ids = v }))

abbrev pub endpoints_entry : {Url : Type 0} → ConfigEntry Url
endpoints_entry =
    record (entry "monitoring_endpoints" (texts_ptr (λ v cfg. record cfg { addresses = v }))) {
      tweak = some (λ cfg. record cfg { use_srv = false });
    }

abbrev pub region_entry : {Url : Type 0} → ConfigEntry Url
region_entry =
    record (entry "monitoring_snet_region" (text_ptr (λ v cfg. record cfg { snet_region = v }))) {
      allowed = valid_snet_regions;
    }

abbrev pub proxy_entry : {Url : Type 0} → ConfigEntry Url
proxy_entry = entry "monitoring_proxy_url" (url_ptr (λ v cfg. record cfg { proxy_url = some v }))

abbrev pub prometheus_entry : {Url : Type 0} → ConfigEntry Url
prometheus_entry = entry "prometheus_uri" (text_ptr (λ v cfg. record cfg { prometheus_uri = v }))

abbrev pub statsd_entry : {Url : Type 0} → ConfigEntry Url
statsd_entry = entry "statsd_endpoint" (text_ptr (λ v cfg. record cfg { statsd_endpoint = v }))

abbrev pub define_config_entries : {Url : Type 0} → List (ConfigEntry Url)
define_config_entries =
    id_entry ∷ token_entry ∷ zones_entry ∷ endpoints_entry ∷ region_entry ∷ proxy_entry
    ∷ prometheus_entry ∷ statsd_entry ∷ []

unfoldable pub is_allowed : {Url : Type 0} → ConfigEntry Url → String → Bool
is_allowed e v = elim e.allowed [ [] ↦ true | a ∷ others ↦ contains (a ∷ others) v ]

pub data Data : Type 0 where
  text : String → Data
  texts : List String → Data
  other : Data

abbrev stars : ℕ → String
stars zero = ""
stars (suc n) = text_append "*" (stars n)

-- What the log shows of a value.
unfoldable pub apply_mask : {Url : Type 0} → ConfigEntry Url → Data → Data
apply_mask e (text s) = if e.sensitive then text (stars (len s)) else text s
apply_mask e (texts ss) = if e.sensitive then text (stars 10) else texts ss
apply_mask e other = other
