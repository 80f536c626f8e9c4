-- ===== src/Currency.antt =====
-- Currency families: server/internal/currency/currency.go. The map of the families is a function.
use Prim.Native.String.{String}
use stonks.Base.{Bool, true, false, Option, none, some}

abbrev pub Families : Type 0
Families = String → Option String

-- The empty family for a code that the system lacks.
unfoldable pub family : Families → String → String
family f code = elim (f code) [ none ↦ "" | some fam ↦ fam ]

unfoldable pub known : Families → String → Bool
known f code = elim (f code) [ none ↦ false | some fam ↦ true ]
