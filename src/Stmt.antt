-- ===== src/Stmt.antt =====
-- The statements of server/internal/stmt: what a statement states, and the parts of the package. A
-- message holds its enums as `types.FromProto` reads them. Times and dates are those of Types/Time.
pub mod Dates
pub mod Keys
pub mod Intern
pub mod Validate
pub mod Work
use Prim.Native.String.{String}
use stonks.Base.{Option, List}
use stonks.Types.AssetClass.{AssetClass}
use stonks.Types.Identifier.{Identifier, IdentifierType}

-- A number outside the vocabulary, UNSPECIFIED, or a value.
pub data FromProto (A : Type 0) : Type 0 where
  outside unspecified : FromProto A
  value : A → FromProto A

pub data Result (E A : Type 0) : Type 0 where
  err : E → Result E A
  ok : A → Result E A

pub record IdentifierMsg : Type 0 where
  pub type : FromProto IdentifierType
  pub domain : String
  pub value : String

pub record StatedKeyMsg : Type 0 where
  pub asset_class : FromProto AssetClass
  pub currency : Option String
  pub identifiers : List IdentifierMsg

pub record Key : Type 0 where
  pub class : Option AssetClass
  pub currency : Option String
  pub identifiers : List Identifier

pub record RowMsg : Type 0 where
  pub key : Option StatedKeyMsg
  pub order_date : String
  pub settlement_date : String
  pub as_at : String
  pub quantity : String

pub record RatioMsg : Type 0 where
  pub from : String
  pub to : String

pub record SplitMsg : Type 0 where
  pub key : Option StatedKeyMsg
  pub effective_date : String
  pub quantity : String
  pub ratio : Option RatioMsg

-- Why a key is refused.
pub data KeyError : Type 0 where
  no_key class_outside type_outside datasource_ticker_stated no_value other_broker no_identifier
        unknown_currency :
      KeyError
  two_values : Identifier → Identifier → KeyError
