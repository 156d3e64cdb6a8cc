-- ===== src/Config/Settings.antt =====
-- The settings that a configuration file makes, by name, and the configuration that they lead to:
-- a description of config/config.go's loading without its loops.
use rackspace_monitoring_pol.Base.{
  String, Bool, true, false, Option, none, some, List, [], ◌∷◌, ◌≡◌, ◌≢◌, ◌⊎◌, str_eq, All,
  if◌then◌else◌,
}
use rackspace_monitoring_pol.Base.Keys.{contains}
use rackspace_monitoring_pol.Base.Lines.{fields}
use rackspace_monitoring_pol.Config.{Config}
use rackspace_monitoring_pol.Config.Entries.{valid_snet_regions}
use rackspace_monitoring_pol.Config.Parse.{parts_of}
use rackspace_monitoring_pol.Config.Load.{is_skipped}

abbrev pub Settings : Type 0
Settings = String → Option String

abbrev pub nothing : Settings
nothing name = none

abbrev pub one : String → String → Settings
one n v name = if str_eq name n then some v else none

abbrev pub later : Settings → Settings → Settings
later new old name = elim (new name) [ none ↦ old name | some v ↦ some v ]

abbrev pub of_fields : List String → Settings
of_fields [] = nothing
of_fields (n ∷ []) = nothing
of_fields (n ∷ (v ∷ r)) = one n v

abbrev pub of_line : String → Settings
of_line line = if is_skipped line then nothing else of_fields (fields line)

-- The last setting of a name stands.
unfoldable pub of_lines : List String → Settings
of_lines [] = nothing
of_lines (line ∷ lines) = later (of_lines lines) (of_line line)

abbrev pub text_of : Option String → String → String
text_of none old = old
text_of (some v) old = v

abbrev pub list_of : Option String → List String → List String
list_of none old = old
list_of (some v) old = parts_of v

abbrev pub srv_of : Option String → Bool → Bool
srv_of none old = old
srv_of (some v) old = false

module _ {Url : Type 0} (parse_request_uri : String → Option Url) where
  abbrev pub url_of : Option String → Option Url → Option Url
  url_of none old = old
  url_of (some v) old = parse_request_uri v

  unfoldable pub configured : Settings → Config Url → Config Url
  configured d cfg = record cfg {
    agent_id = text_of (d "monitoring_id") cfg.agent_id;
    token = text_of (d "monitoring_token") cfg.token;
    zone_ids = list_of (d "monitoring_private_zones") cfg.zone_ids;
    addresses = list_of (d "monitoring_endpoints") cfg.addresses;
    use_srv = srv_of (d "monitoring_endpoints") cfg.use_srv;
    snet_region = text_of (d "monitoring_snet_region") cfg.snet_region;
    proxy_url = url_of (d "monitoring_proxy_url") cfg.proxy_url;
    prometheus_uri = text_of (d "prometheus_uri") cfg.prometheus_uri;
    statsd_endpoint = text_of (d "statsd_endpoint") cfg.statsd_endpoint;
  }

  -- What a setting must satisfy: a region is one of the valid ones, a URL can be parsed.
  abbrev pub Admissible : String → String → Type 0
  Admissible n v =
      (n ≡ "monitoring_snet_region" → contains valid_snet_regions v ≡ true)
      × (n ≡ "monitoring_proxy_url" → parse_request_uri v ≢ none)

  abbrev pub AreFields : List String → Type 0
  AreFields [] = ⊥
  AreFields (n ∷ []) = ⊥
  AreFields (n ∷ (v ∷ r)) = Admissible n v

  abbrev pub IsLine : String → Type 0
  IsLine line = (is_skipped line ≡ true) ⊎ AreFields (fields line)

  abbrev pub AreLines : List String → Type 0
  AreLines = All IsLine
