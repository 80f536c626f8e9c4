-- ===== src/Stmt/Intern.antt =====
-- canon and intern of server/internal/stmt/stmt.go: the distinct keys of a statement, under their
-- canonical encodings. The map of the keys lists them in the order of their first appearance, as
-- `order` does, and a pointer to a key is its place there.
pub mod Canon
pub mod Places
use Prim.Native.Char.{Char}
use Prim.Native.String.{String, ◌++◌ as ◌<>◌, ◌∷◌}
use text.Mathlib.Text.{◌==◌ as str_eq}
use stonks.Base.{ℕ, suc, Option, none, some, List, [], ◌∷◌, ◌++◌, length, if◌then◌else◌}
use stonks.Types.AssetClass.{
  AssetClass, unknown, cash, security, equity, stock, etf, mutual_fund, fixed_income, derivative,
  option, future,
}
use stonks.Types.Identifier.{Identifier}
use stonks.Stmt.{Key}
use stonks.Stmt.Keys.{type_word}

-- The word of a class in the database, which is its string.
unfoldable pub class_word : AssetClass → String
class_word unknown = "unknown"
class_word cash = "cash"
class_word security = "security"
class_word equity = "equity"
class_word stock = "stock"
class_word etf = "etf"
class_word mutual_fund = "mutual_fund"
class_word fixed_income = "fixed_income"
class_word derivative = "derivative"
class_word option = "option"
class_word future = "future"
class_word AssetClass.none = ""

-- The bytes 0 and 1.
abbrev pub zero_byte : Char
zero_byte = "\0"

abbrev pub one_byte : Char
one_byte = "\u{1}"

abbrev pub part : Option String → String
part none = ""
part (some s) = one_byte ∷ s

abbrev pub ended : String → String → String
ended s rest = s <> (zero_byte ∷ rest)

unfoldable pub canon_identifiers : List Identifier → String
unfolding type_word
canon_identifiers [] = ""
canon_identifiers (id ∷ ids) =
    ended (type_word id.type) (ended id.domain (ended id.value (canon_identifiers ids)))

unfoldable pub class_part : Option AssetClass → Option String
unfolding class_word
class_part none = none
class_part (some c) = some (class_word c)

unfoldable pub canon : Key → String
unfolding canon_identifiers class_part
canon k =
    ended (part (class_part k.class)) (ended (part k.currency) (canon_identifiers k.identifiers))

-- The place of the held key, from the place `i` on.
unfoldable pub held_at : String → ℕ → List Key → Option ℕ
unfolding canon
held_at c i [] = none
held_at c i (k ∷ order) = if str_eq (canon k) c then some i else held_at c (suc i) order

unfoldable pub intern : Key → List Key → List Key × ℕ
unfolding held_at
intern k order = elim (held_at (canon k) 0 order) [
  | some i ↦ (order, i)
  | none ↦ (order ++ k ∷ [], length order)
]
