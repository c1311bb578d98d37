-- ===== src/Prelude/Letters.antt =====
-- `text.lower()` and `text.upper()` of ASCII texts.
use Prim.Native.Char.{Char, code}
use Prim.Native.String.{String, [], ◌∷◌, char_at}
use Prim.Native.Nat.{◌-◌}
use mathlib.Core.Bool.{◌&&◌}
use gpca_v.Prelude.Tests.{leb, if◌then◌else◌}

abbrev pub lower_char : Char → Char
lower_char c =
    if leb 65 (code c) && leb (code c) 90
    then char_at "abcdefghijklmnopqrstuvwxyz" (code c - 65)
    else c

abbrev pub upper_char : Char → Char
upper_char c =
    if leb 97 (code c) && leb (code c) 122
    then char_at "ABCDEFGHIJKLMNOPQRSTUVWXYZ" (code c - 97)
    else c

abbrev pub lower : String → String
lower [] = []
lower (c ∷ s) = lower_char c ∷ lower s

abbrev pub upper : String → String
upper [] = []
upper (c ∷ s) = upper_char c ∷ upper s
