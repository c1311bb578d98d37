-- ===== src/Security/Header.antt =====
-- The text operations of `_bearer_token` in api/app/security/decorators.py: `partition`, `strip`
-- and the comparison of a lowered scheme. A text lowers to "bearer" only if each of its characters
-- is the ASCII letter in either case, so the lowering is that of ASCII.
use Prim.Native.Char.{code}
use Prim.Native.String.{[], ◌∷◌}
use mathlib.Core.List.{List}
use gpca_v.Prelude.{ℕ, String, Bool, true, false, ◌&&◌, ◌||◌, ◌+◌, leb, ◌==◌, if◌then◌else◌}

-- `str.isspace` of one character
abbrev pub is_space : ℕ → Bool
is_space c =
    (leb 9 c && leb c 13)
    || (leb 28 c && leb c 32)
    || c == 0x85
    || c == 0xa0
    || c == 0x1680
    || (leb 0x2000 c && leb c 0x200a)
    || c == 0x2028
    || c == 0x2029
    || c == 0x202f
    || c == 0x205f
    || c == 0x3000

abbrev pub is_empty : String → Bool
is_empty [] = true
is_empty (c ∷ s) = false

unfoldable pub lstrip : String → String
lstrip [] = []
lstrip (c ∷ s) = if is_space (code c) then lstrip s else c ∷ s

unfoldable pub rstrip : String → String
rstrip [] = []
rstrip (c ∷ s) = let rest = rstrip s in if is_empty rest && is_space (code c) then [] else c ∷ rest

-- `text.strip()`
unfoldable pub strip : String → String
unfolding lstrip rstrip
strip s = rstrip (lstrip s)

-- the first and the last part of `text.partition(" ")`
unfoldable pub before_space : String → String
before_space [] = []
before_space (c ∷ s) = if code c == 32 then [] else c ∷ before_space s

unfoldable pub after_space : String → String
after_space [] = []
after_space (c ∷ s) = if code c == 32 then s else after_space s

abbrev lower_code : ℕ → ℕ
lower_code c = if leb 65 c && leb c 90 then c + 32 else c

-- do the characters of a text, lowered, have these codes?
unfoldable pub lowers_to : List ℕ → String → Bool
lowers_to List.[] [] = true
lowers_to List.[] (c ∷ s) = false
lowers_to (List.◌∷◌ k ks) [] = false
lowers_to (List.◌∷◌ k ks) (c ∷ s) = lower_code (code c) == k && lowers_to ks s

-- "bearer"
abbrev pub bearer_codes : List ℕ
bearer_codes =
    List.◌∷◌ 98 (List.◌∷◌ 101 (List.◌∷◌ 97 (List.◌∷◌ 114 (List.◌∷◌ 101 (List.◌∷◌ 114 List.[])))))
