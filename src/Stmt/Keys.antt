-- ===== src/Stmt/Keys.antt =====
-- keyOf and keyFor of server/internal/stmt/validate.go: a stated key in its canonical form.
pub mod Held
pub mod Canonical
pub mod Read
pub mod Form
use Prim.Native.Nat.{Ordering}
use Prim.Native.String.{String, compare, then as next}
use text.Mathlib.Text.{◌==◌ as str_eq, is_le}
use stonks.Base.{
  Bool, true, false, not, ◌&&◌, ◌||◌, Option, none, some, List, [], ◌∷◌, ◌++◌, any, if◌then◌else◌,
}
use stonks.Base.Order.{stable_sort}
use stonks.Types.AssetClass.{AssetClass}
use stonks.Types.Identifier.{
  Identifier, IdentifierType, exclusive, isin, cusip, cins, wertpapier, openfigi_share_class, sedol,
  openfigi_composite, mic_ticker, occ, currency, datasource_ticker, broker_id, broker_description,
  option,
}
use stonks.Identity.Group.{identifier_eq}
use stonks.Identity.Resolve.Claim.{type_eq}
use stonks.Currency.{Families, known}
use stonks.Stmt.{FromProto, Result, IdentifierMsg, StatedKeyMsg, Key, KeyError}

-- The word of a type in the database, which is its string.
unfoldable pub type_word : IdentifierType → String
type_word isin = "isin"
type_word cusip = "cusip"
type_word cins = "cins"
type_word wertpapier = "wertpapier"
type_word openfigi_share_class = "openfigi_share_class"
type_word sedol = "sedol"
type_word openfigi_composite = "openfigi_composite"
type_word mic_ticker = "mic_ticker"
type_word occ = "occ"
type_word currency = "currency"
type_word datasource_ticker = "datasource_ticker"
type_word broker_id = "broker_id"
type_word broker_description = "broker_description"
type_word option = "option"

unfoldable pub compare_identifiers : Identifier → Identifier → Ordering
unfolding type_word
compare_identifiers a b =
    next (compare (type_word a.type) (type_word b.type))
      (next (compare a.domain b.domain) (compare a.value b.value))

-- The identifier held that a further value of an exclusive type contradicts.
unfoldable pub clashing : Identifier → List Identifier → Option Identifier
unfolding type_eq exclusive
clashing id [] = none
clashing id (h ∷ held) =
    if type_eq h.type id.type && (str_eq h.domain id.domain && exclusive id)
    then some h
    else clashing id held

-- A type that only the statements of its broker state.
abbrev pub is_broker_type : IdentifierType → Bool
is_broker_type broker_id = true
is_broker_type broker_description = true
is_broker_type _ = false

abbrev pub is_datasource_ticker : IdentifierType → Bool
is_datasource_ticker datasource_ticker = true
is_datasource_ticker _ = false

-- The rest of one round of the loop, for the identifier that is read.
unfoldable pub hold : String → Identifier → List Identifier → Result KeyError (List Identifier)
unfolding clashing identifier_eq
hold broker id held =
    if is_datasource_ticker id.type
    then Result.err KeyError.datasource_ticker_stated
    else if str_eq id.value ""
    then Result.err KeyError.no_value
    else if is_broker_type id.type && not (str_eq id.domain broker)
    then Result.err KeyError.other_broker
    else if any (λ h. identifier_eq h id) held
    then Result.ok held
    else elim (clashing id held) [
      | some h ↦ Result.err (KeyError.two_values h id)
      | none ↦ Result.ok (held ++ id ∷ [])
    ]

unfoldable pub read_identifier :
    String → IdentifierMsg → List Identifier → Result KeyError (List Identifier)
unfolding hold
read_identifier broker msg held = elim msg.type [
  | FromProto.outside ↦ Result.err KeyError.type_outside
  | FromProto.unspecified ↦ Result.err KeyError.type_outside
  | FromProto.value t ↦
      hold broker (record { type = t; domain = msg.domain; value = msg.value }) held
]

unfoldable pub read_identifiers :
    String → List IdentifierMsg → List Identifier → Result KeyError (List Identifier)
unfolding read_identifier
read_identifiers broker [] held = Result.ok held
read_identifiers broker (msg ∷ msgs) held = elim (read_identifier broker msg held) [
  | Result.err e ↦ Result.err e
  | Result.ok held' ↦ read_identifiers broker msgs held'
]

abbrev pub may_precede : Identifier → Identifier → Bool
may_precede a b = is_le (compare_identifiers a b)

abbrev pub class_of : FromProto AssetClass → Result KeyError (Option AssetClass)
class_of FromProto.outside = Result.err KeyError.class_outside
class_of FromProto.unspecified = Result.ok none
class_of (FromProto.value c) = Result.ok (some c)

unfoldable pub key_of : String → StatedKeyMsg → Result KeyError Key
unfolding read_identifiers stable_sort compare_identifiers
key_of broker sk = elim (class_of sk.asset_class) [
  | Result.err e ↦ Result.err e
  | Result.ok class ↦ elim (read_identifiers broker sk.identifiers []) [
    | Result.err e ↦ Result.err e
    | Result.ok ids ↦ Result.ok (record {
      class = class;
      currency = sk.currency;
      identifiers = stable_sort may_precede ids;
    })
  ]
]

abbrev pub statable : Key → Bool
statable k = any (λ id. true) k.identifiers

abbrev pub states_unknown : Families → Key → Bool
states_unknown families k = elim k.currency [ none ↦ false | some c ↦ not (known families c) ]

unfoldable pub key_for : Families → String → Option StatedKeyMsg → Result KeyError Key
unfolding key_of known
key_for families broker none = Result.err KeyError.no_key
key_for families broker (some sk) = elim (key_of broker sk) [
  | Result.err e ↦ Result.err e
  | Result.ok k ↦
      if not (statable k)
      then Result.err KeyError.no_identifier
      else if states_unknown families k
      then Result.err KeyError.unknown_currency
      else Result.ok k
]
