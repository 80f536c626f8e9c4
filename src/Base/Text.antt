-- ===== src/Base/Text.antt =====
-- strings.ToUpper and strings.TrimSpace on ASCII, and the order of strings.
use Prim.Native.Char.{Char, code}
use Prim.Native.String.{String, [], ◌∷◌, char_at, compare}
use text.Mathlib.Text.{◌==◌ as str_eq, find?, is_le}
use mathlib.Core.Bool.{Bool, ◌&&◌, ◌||◌}
use mathlib.Core.Option.{none, some}
use stonks.Base.Tests.{leb, ◌==◌, if◌then◌else◌}

unfoldable pub upper_char : Char → Char
upper_char c = elim (find? "abcdefghijklmnopqrstuvwxyz" (c ∷ [])) [
  | none ↦ c
  | some i ↦ char_at "ABCDEFGHIJKLMNOPQRSTUVWXYZ" i
]

-- strings.ToUpper
unfoldable pub upper : String → String
unfolding upper_char
upper [] = []
upper (c ∷ s) = upper_char c ∷ upper s

-- The white space of ASCII.
unfoldable pub is_space : Char → Bool
is_space c = code c == b' ' || (leb 9 (code c) && leb (code c) 13)

unfoldable pub trim_start : String → String
unfolding is_space
trim_start [] = []
trim_start (c ∷ s) = if is_space c then trim_start s else c ∷ s

unfoldable pub trim_end : String → String
unfolding is_space
trim_end [] = []
trim_end (c ∷ s) = let rest = trim_end s in if is_space c && str_eq rest "" then [] else c ∷ rest

-- strings.TrimSpace
unfoldable pub trim_space : String → String
unfolding trim_start trim_end
trim_space s = trim_end (trim_start s)

-- The order of strings.
abbrev pub str_le : String → String → Bool
str_le s t = is_le (compare s t)
