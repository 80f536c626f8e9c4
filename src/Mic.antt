-- ===== src/Mic.antt =====
-- Markets and venues: server/internal/mic/mic.go. The map of the MICs is a list of entries, one of
-- each MIC.
pub mod Probes
use Prim.Native.String.{String}
use text.Mathlib.Text.{◌==◌ as str_eq}
use stonks.Base.{
  Bool, true, false, not, ◌||◌, Option, none, some, List, [], ◌∷◌, ◌++◌, any, ◌>>=◌, if◌then◌else◌,
}
use stonks.Base.Order.{stable_sort}
use stonks.Base.Text.{upper, trim_space, str_le}
use stonks.Types.Identifier.{Identifier, IdentifierType, mic_ticker, is_domain}
use stonks.Types.MarketTicker.{MarketTicker}

pub record Mic : Type 0 where
  pub operating : String
  pub market : String

abbrev pub MicMap : Type 0
MicMap = List (String × Mic)

unfoldable pub entry : MicMap → String → Option Mic
entry [] m = none
entry ((n, e) ∷ t) m = if str_eq n m then some e else entry t m

unfoldable pub operating : MicMap → String → Option String
unfolding entry upper trim_space
operating t m = do e ← entry t (upper (trim_space m)); some e.operating

unfoldable pub market : MicMap → String → Option String
unfolding entry upper trim_space
market t m = do e ← entry t (upper (trim_space m)); some e.market

unfoldable pub is_market : MicMap → String → Bool
is_market t m = any (λ e. str_eq e.1.market m) t

abbrev pub is_mic_ticker : IdentifierType → Bool
is_mic_ticker mic_ticker = true
is_mic_ticker _ = false

unfoldable pub market_ticker : MicMap → Identifier → Option MarketTicker
unfolding market
market_ticker t v =
    if not (is_mic_ticker v.type) || str_eq v.value ""
    then none
    else do m ← market t v.domain; some (record { market = m; value = v.value })

unfoldable pub venues_of : MicMap → String → List String
venues_of [] mk = []
venues_of ((m, e) ∷ t) mk = if str_eq e.market mk then m ∷ venues_of t mk else venues_of t mk

-- slices.Sort
unfoldable pub venues : MicMap → String → List String
unfolding venues_of stable_sort
venues t mk = stable_sort str_le (venues_of t mk)

-- The object of a probe: an identifier that names a whole domain has no value.
pub record ProbeObject : Type 0 where
  pub type : IdentifierType
  pub domain : String
  pub value : Option String

module _ {B : Type 0} (marshal : List ProbeObject → Option B) where
  unfoldable pub probe : Identifier → Option B
  unfolding is_domain
  probe id = marshal (
      record {
        type = id.type;
        domain = id.domain;
        value = if is_domain id then none else some id.value;
      }
      ∷ [])

  -- The loop over the venues of one ticker.
  unfoldable pub venue_probes : String → List String → Option (List B)
  unfolding probe
  venue_probes value [] = some []
  venue_probes value (v ∷ vs) = do
    b ← probe (record { type = mic_ticker; domain = v; value = value })
    rest ← venue_probes value vs
    some (b ∷ rest)

  -- A market without a venue is an error.
  unfoldable pub market_probes : MarketTicker → List String → Option (List B)
  unfolding venue_probes
  market_probes mt [] = none
  market_probes mt (v ∷ vs) = venue_probes mt.value (v ∷ vs)

  unfoldable pub ticker_probes : MicMap → List MarketTicker → Option (List B)
  unfolding venues market_probes
  ticker_probes t [] = some []
  ticker_probes t (mt ∷ ts) = do
    out ← market_probes mt (venues t mt.market)
    rest ← ticker_probes t ts
    some (out ++ rest)
