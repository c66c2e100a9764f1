-- ===== src/Common/Texts.antt =====
-- Texts put together, as an f-string does.
use Prim.Native.String.{String, ◌++◌}

abbrev pub join_text : String → String → String
join_text a b = a ++ b
