-- ===== src/Authorization/Source.antt =====
-- pkg/authorization/access_source.go. os.ReadFile is a parameter; none is an error.
use viking_ftpd.Prelude.{false, Option, none, some, Bytes}
use viking_ftpd.Lpc.Value.{Float64, Fields}
use viking_ftpd.Lpc.Object.{Outcome, parsed, failed, ParseResult, parse_object}

module _ {F : Type 0} ⦃fl : Float64 F⦄ where
  abbrev pub object_of : Outcome (ParseResult F) → Option (Fields F)
  object_of (parsed result) = some result.object
  object_of (failed e) = none

  abbrev pub parsed_text : Option Bytes → Option (Fields F)
  parsed_text none = none
  parsed_text (some text) = object_of (parse_object false text)

  -- LoadAccessData
  unfoldable pub load_access_data : (Bytes → Option Bytes) → Bytes → Option (Fields F)
  unfolding parse_object
  load_access_data read_file path = parsed_text (read_file path)
