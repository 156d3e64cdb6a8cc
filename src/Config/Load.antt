-- ===== src/Config/Load.antt =====
-- LoadFromFile and PostProcess of config/config.go, with the templates of config/constants.go.
use Prim.Native.Char.{code}
use Prim.Native.String.{◌++◌ as text_append}
use rackspace_monitoring_pol.Base.{
  String, Bool, false, Option, none, some, List, [], ◌∷◌, str_eq, ◌==◌, if◌then◌else◌, map, ◌||◌,
}
use rackspace_monitoring_pol.Base.Text.{trim_space}
use rackspace_monitoring_pol.Base.Lines.{fields, scan_lines}
use rackspace_monitoring_pol.Config.{Config}
use rackspace_monitoring_pol.Config.Entries.{define_config_entries}
use rackspace_monitoring_pol.Config.Parse.{ParseError, Changed, proceed, parse_fields}

-- The regular expression ^#
abbrev is_comment : String → Bool
is_comment String.[] = false
is_comment (String.◌∷◌ c s) = code c == 35

unfoldable pub is_skipped : String → Bool
is_skipped line = is_comment line || str_eq (trim_space line) ""

-- The pieces of a template are texts, or the field SnetRegion.
pub data Piece : Type 0 where
  literal : String → Piece
  snet_region_field : Piece

abbrev pub execute : {Url : Type 0} → List Piece → Config Url → String
execute [] cfg = ""
execute (literal s ∷ t) cfg = text_append s (execute t cfg)
execute (snet_region_field ∷ t) cfg = text_append cfg.snet_region (execute t cfg)

abbrev snet_template : String → List Piece
snet_template rest = literal "_monitoringagent._tcp.snet-" ∷ snet_region_field ∷ literal rest ∷ []

abbrev pub snet_monitoring_template_srv_queries : List (List Piece)
snet_monitoring_template_srv_queries =
    snet_template "-region0.prod.monitoring.api.rackspacecloud.com"
    ∷ snet_template "-region1.prod.monitoring.api.rackspacecloud.com"
    ∷ snet_template "-region2.prod.monitoring.api.rackspacecloud.com"
    ∷ []

abbrev pub snet_monitoring_template_srv_queries_staging : List (List Piece)
snet_monitoring_template_srv_queries_staging =
    snet_template "-region0.stage.monitoring.api.rackspacecloud.com"
    ∷ snet_template "-region1.stage.monitoring.api.rackspacecloud.com"
    ∷ snet_template "-region2.stage.monitoring.api.rackspacecloud.com"
    ∷ []

abbrev pub process_snet_srv_templates : {Url : Type 0} → List (List Piece) → Config Url → Config Url
process_snet_srv_templates ts cfg = record cfg { srv_queries = map (λ t. execute t cfg) ts }

-- No template fails: the field that they name is there.
unfoldable pub post_process : {Url : Type 0} → Config Url → Config Url
post_process cfg =
    if str_eq cfg.snet_region ""
    then cfg
    else process_snet_srv_templates
        (if cfg.use_staging
          then snet_monitoring_template_srv_queries_staging
          else snet_monitoring_template_srv_queries)
        cfg

pub data LoadError : Type 0 where
  not_opened : LoadError
  not_parsed : ParseError → LoadError

module _ {Url : Type 0} (parse_request_uri : String → Option Url) where
  unfoldable pub load_line : String → Config Url → Changed Url
  load_line line cfg =
      if is_skipped line
      then (cfg, none)
      else parse_fields parse_request_uri define_config_entries (fields line) cfg

  unfoldable pub load_lines : List String → Config Url → Changed Url
  load_lines [] cfg = (cfg, none)
  load_lines (line ∷ lines) cfg = proceed (load_line line cfg) (load_lines lines)

  abbrev finish_load : Changed Url → Config Url × Option LoadError
  finish_load (cfg, some e) = (cfg, some (not_parsed e))
  finish_load (cfg, none) = (post_process cfg, none)

  -- Of a file that opens the text, of one that does not the error.
  unfoldable pub load_from_file : Option String → Config Url → Config Url × Option LoadError
  load_from_file none cfg = (cfg, some (not_opened))
  load_from_file (some text) cfg = finish_load (load_lines (scan_lines text) cfg)
