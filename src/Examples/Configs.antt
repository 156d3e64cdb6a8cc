-- ===== src/Examples/Configs.antt =====
-- The theorems on config/config.go, at small files.
use Prim.Native.Char.{Char}
use Prim.Native.String.{len, ◌++◌ as text_append}
use rackspace_monitoring_pol.Base.{
  ℕ, zero, suc, String, false, Option, none, some, List, [], ◌∷◌, ◌≡◌, refl, inl, inr, sym, arith,
  if◌then◌else◌, str_eq,
}
use rackspace_monitoring_pol.Base.Lines.{
  split, split_by, fields, drop_cr, scan_lines, max_scan_token_size,
}
use rackspace_monitoring_pol.Base.Text.{trim_space}
use rackspace_monitoring_pol.Config.Accepted.{free, differ}
use rackspace_monitoring_pol.Config.{Config, Environment, new_config}
use rackspace_monitoring_pol.Config.Load.{is_skipped, load_lines, load_from_file}
use rackspace_monitoring_pol.Config.Settings.{of_lines, AreLines}
use rackspace_monitoring_pol.Config.Configured.{Course, load_lines-Course}
use rackspace_monitoring_pol.Config.Start.{IsReady, load_from_file-IsReady}
use rackspace_monitoring_pol.Config.Cut.{load_from_file-cut}

-- URLs are texts that are not empty.
abbrev parse_request_uri : String → Option String
parse_request_uri s = if str_eq s "" then none else some s

abbrev environment : Environment
environment = record {
  agent_token = "";
  agent_id = "";
  staging = "";
  cleartext = "";
  version = "dev";
}

abbrev config : Config String
config = new_config environment "guid" false none

abbrev file_lines : List String
file_lines =
    "# zones" ∷ "monitoring_private_zones pzA, pzB" ∷ "" ∷ "monitoring_token secret"
    ∷ "monitoring_snet_region mars" ∷ []

load_lines-Course_example :
    Course parse_request_uri config file_lines (load_lines parse_request_uri file_lines config)
load_lines-Course_example = load_lines-Course parse_request_uri file_lines config

abbrev file : String
file =
    "monitoring_private_zones pzA\n# token\nmonitoring_token secret\nmonitoring_snet_region dfw\n"

abbrev loaded : Option String
loaded = some file

file-AreLines : AreLines parse_request_uri (scan_lines file)
unfolding is_skipped fields scan_lines split_by trim_space drop_cr
file-AreLines = (
  inr (free parse_request_uri "monitoring_private_zones" "pzA" refl refl),
  (
    inl refl,
    (
      inr (free parse_request_uri "monitoring_token" "secret" refl refl),
      (
        inr (λ h. refl, λ h. differ "monitoring_proxy_url" "monitoring_snet_region" refl (sym h)),
        tt,
      ),
    ),
  ),
)

load_from_file-IsReady_example :
    IsReady environment false
      (of_lines (scan_lines file))
      (load_from_file parse_request_uri loaded (new_config environment "guid" false none))
load_from_file-IsReady_example =
    load_from_file-IsReady parse_request_uri environment "guid" false none file file-AreLines

abbrev newline : Char
newline = "\n"

unfoldable padding : ℕ → String
padding zero = ""
padding (suc n) = String.◌∷◌ "x" (padding n)

padding-line : (n : ℕ) → split 10 (padding n) ≡ padding n ∷ []
unfolding padding split_by
padding-line zero = refl
padding-line (suc n) = rw (split_by, padding-line n) refl

len-padding : (n : ℕ) → len (padding n) ≡ n
unfolding padding
len-padding zero = refl
len-padding (suc n) = omega (arith, Prim.Native.String.len.cons "x" (padding n), len-padding n)

load_from_file-cut_example :
    load_from_file parse_request_uri
      (some (
        text_append "monitoring_token secret" (
          String.◌∷◌ newline (
            text_append
              (padding max_scan_token_size)
              (String.◌∷◌ newline "monitoring_private_zones pzA")))))
      config
    ≡ load_from_file parse_request_uri
        (some (text_append "monitoring_token secret" (String.◌∷◌ newline "")))
        config
load_from_file-cut_example =
    load_from_file-cut parse_request_uri config newline "monitoring_token secret"
      (padding max_scan_token_size) "monitoring_private_zones pzA" refl
      (padding-line max_scan_token_size) (omega (arith, len-padding max_scan_token_size))
