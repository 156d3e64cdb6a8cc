-- ===== src/Base/StatusLine.antt =====
-- utils/status.go: StatusLine, whose parts are joined by commas.
use Prim.Native.String.{◌++◌ as text_append}
use rackspace_monitoring_pol.Base.{String, List, [], ◌∷◌, ◌++◌}

abbrev pub StatusLine : Type 0
StatusLine = List String

abbrev pub new_status_line : StatusLine
new_status_line = []

-- Add, of a value that is printed already.
unfoldable pub add_value : String → String → StatusLine → StatusLine
add_value key value sl = sl ++ text_append key (text_append "=" value) ∷ []

unfoldable pub add_option : String → StatusLine → StatusLine
add_option key sl = sl ++ key ∷ []

-- String
unfoldable pub to_text : StatusLine → String
to_text [] = ""
to_text (s ∷ []) = s
to_text (s ∷ (t ∷ sl)) = text_append s (text_append "," (to_text (t ∷ sl)))
