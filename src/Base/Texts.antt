-- ===== src/Base/Texts.antt =====
-- The equality of texts.
use mathlib.Core.Bool.{Bool}
use text.Mathlib.Text
use Prim.Native.String.{String}

-- `==` of two strings: the same bytes.
abbrev pub same_text : String → String → Bool
same_text s t = Text.◌==◌ s t
