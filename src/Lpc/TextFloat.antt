-- ===== src/Lpc/TextFloat.antt =====
-- The floats of the examples: their decimal texts, which all read as the integer 0.
use viking_ftpd.Prelude.{some, Bytes, pos}
use viking_ftpd.Lpc.Value.{Float64}

instance abbrev pub text_floats : Float64 Bytes
text_floats = record { parse_float = some; format_float = λ b. b; truncate = λ b. pos 0 }
