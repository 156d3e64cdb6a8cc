-- ===== src/Config/Cut.antt =====
-- A configuration file with a line that config/config.go's scanner cannot hold.
use Prim.Native.Char.{Char, code}
use Prim.Native.String.{len, ◌++◌ as text_append}
use rackspace_monitoring_pol.Base.{String, Option, some, [], ◌∷◌, ◌≡◌, refl, ◌≤◌}
use rackspace_monitoring_pol.Base.Lines.{split, max_scan_token_size}
use rackspace_monitoring_pol.Base.Lines.Parts.{scan_lines-long}
use rackspace_monitoring_pol.Config.{Config}
use rackspace_monitoring_pol.Config.Load.{load_from_file}

-- A line of 65536 bytes or more is dropped together with everything behind it, and without an error: the
-- file is loaded as if it ended in front of that line.
pub load_from_file-cut :
    {Url : Type 0} (parse_request_uri : String → Option Url) (cfg : Config Url) (newline : Char)
    (before long rest : String)
    → code newline ≡ 10
    → split 10 long ≡ long ∷ []
    → max_scan_token_size ≤ len long
    → load_from_file parse_request_uri
        (some
          (text_append before (String.◌∷◌ newline (text_append long (String.◌∷◌ newline rest)))))
        cfg
      ≡ load_from_file parse_request_uri (some (text_append before (String.◌∷◌ newline ""))) cfg
unfolding load_from_file
load_from_file-cut parse cfg newline before long rest is_newline one_line too_long =
    rw (load_from_file, scan_lines-long newline before long rest is_newline one_line too_long) refl
