-- ===== src/Market.antt =====
-- What a datasource answers about a key: server/internal/market/identity.go and the fetch key of
-- server/internal/market/fetch.go. An identifier (uuid) is the number that its bytes spell.
use Prim.Native.String.{String}
use stonks.Base.{ℕ, Bool, false, Option, List, [], ◌∷◌, if◌then◌else◌}
use stonks.Types.Time.{Time}
use stonks.Types.AssetClass.{AssetClass}
use stonks.Types.Identifier.{Identifier}
use stonks.Mic.{is_mic_ticker}

pub data FetchOutcome : Type 0 where
  not_served served blocked failed_temporary failed_permanent : FetchOutcome

pub record Listing : Type 0 where
  pub identifiers : List Identifier
  pub class : AssetClass
  pub currency : String
  pub primary : String

pub record IdentityResult : Type 0 where
  pub filtered : List Identifier
  pub listings : List Listing
  pub limited : Bool
  pub unknown : Bool

-- The reply to an identifier, before its listings are added.
unfoldable pub answer : Identifier → Bool → IdentityResult
answer sent limited = record {
  filtered =
      (if is_mic_ticker sent.type
        then record { type = sent.type; domain = ""; value = sent.value }
        else sent)
      ∷ [];
  listings = [];
  limited = limited;
  unknown = false;
}

-- The request and the run of a fetch key are left out.
pub record FetchKey : Type 0 where
  pub source : String
  pub id : ℕ
  pub outcome : FetchOutcome
  pub sent_id : Option Identifier
  pub reason : String
  pub response : IdentityResult
  pub answered_at : Time
