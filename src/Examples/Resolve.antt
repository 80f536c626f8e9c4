-- ===== src/Examples/Resolve.antt =====
-- The theorems of the resolution of keys at an example: a key states an ISIN and a ticker, "eodhd"
-- answers with one instrument that carries both, and "massive" with that instrument and another one.
use stonks.Base.{ℕ, length, get_elem?, refl, ◌≡◌, ◌↔◌, false, none, some, List, [], ◌∷◌, ◌++◌, All}
use Prim.Native.String.{String}
use stonks.Types.AssetClass.{AssetClass}
use stonks.Types.Identifier.{Identifier, isin, mic_ticker, trait}
use stonks.Types.MarketTicker.{MarketTicker}
use stonks.Mic.{MicMap}
use stonks.Market.{FetchKey, Listing, FetchOutcome}
use stonks.Base.In.{In}
use stonks.Identity.Group.{put, find_from, stated_first}
use stonks.Identity.Resolve.Claims.{
  partition, part_from, own_all, own, root, union, roots_from, unions,
}
use stonks.Identity.Resolve.Claims.Linked.{Linked}
use stonks.Identity.Resolve.Claims.Partition.{partition-Linked}
use stonks.Identity.Resolve.Claim.{IdentityClaim, Resolution}
use stonks.Identity.Resolve.Choose.{filter_alternatives}
use stonks.Identity.Resolve.Verdict.{surviving, best_sent}
use stonks.Identity.Resolve.Verdict.Ranked.{IsBest, best_sent-IsBest}
use stonks.Identity.Resolve.Gather.{gather_consistent_claims}
use stonks.Identity.Resolve.Gather.Consistent.{IsConsistent, gather-IsConsistent}
use stonks.Identity.Resolve.Gather.Every.{claims_of, gather-Every}
use stonks.Identity.Resolve.Choice.{choose, to_list, first_verdict}
use stonks.Identity.Resolve.Choice.Chosen.{Chosen, first_of, choose-Chosen}
use stonks.Identity.Resolve.Candidate.{Pick, find_user_choice}
use stonks.Identity.Resolve.Candidate.Picked.{IsAnswer, find_user_choice-IsAnswer}
use stonks.Examples.{on}

abbrev apple : Identifier
apple = record { type = isin; domain = ""; value = "US0378331005" }

abbrev other : Identifier
other = record { type = isin; domain = ""; value = "US5949181045" }

abbrev at_nasdaq : Identifier
at_nasdaq = record { type = mic_ticker; domain = "XNAS"; value = "AAPL" }

abbrev listing : Identifier → Listing
listing id = record {
  identifiers = id ∷ at_nasdaq ∷ [];
  class = AssetClass.stock;
  currency = "USD";
  primary = "XNAS";
}

abbrev asked : ℕ → String → List Listing → FetchKey
asked i source ls = record {
  source = source;
  id = i;
  outcome = FetchOutcome.served;
  sent_id = some apple;
  reason = "";
  response = record { filtered = []; listings = ls; limited = false; unknown = false };
  answered_at = on 10;
}

abbrev first_asked : FetchKey
first_asked = asked 1 "eodhd" (listing apple ∷ [])

abbrev second_asked : FetchKey
second_asked = asked 2 "massive" (listing apple ∷ listing other ∷ [])

abbrev us_mics : MicMap
us_mics =
    ("XNAS", record { operating = "XNAS"; market = "US" })
    ∷ ("XNYS", record { operating = "XNYS"; market = "US" })
    ∷ []

abbrev resolution : Resolution
resolution = record {
  identifiers = apple ∷ at_nasdaq ∷ [];
  asset_class = some AssetClass.equity;
  family = "USD";
  families = λ code. some code;
  mics = us_mics;
  fetch_keys = first_asked ∷ second_asked ∷ [];
}

abbrev claim : IdentityClaim
claim = record {
  fetch_key = some first_asked;
  instr = record { class = AssetClass.stock; identifiers = apple ∷ []; listings = [] };
}

abbrev rival : IdentityClaim
rival = record {
  fetch_key = some second_asked;
  instr = record { class = AssetClass.stock; identifiers = other ∷ []; listings = [] };
}

abbrev pick : Pick
pick = record { datasource = "eodhd"; identifier = apple }

abbrev tickers : List MarketTicker
tickers = record { market = "US"; value = "AAPL" } ∷ record { market = "XX"; value = "AAPL" } ∷ []

abbrev three : List Listing
three = listing apple ∷ listing other ∷ listing apple ∷ []

three-first : get_elem? (partition three false) 0 ≡ some 0
unfolding partition part_from own_all own root union put find_from stated_first roots_from unions
    trait
three-first = refl

three-last : get_elem? (partition three false) 2 ≡ some 0
unfolding partition part_from own_all own root union put find_from stated_first roots_from unions
    trait
three-last = refl

partition-Linked_example :
    (length (partition three false) ≡ length three) × (Path ℕ 0 0 ↔ Linked three false 0 2)
partition-Linked_example = partition-Linked three false 0 2 0 0 three-first three-last

choose-Chosen_example :
    let v = choose resolution none none in
    Chosen resolution (to_list none) resolution.fetch_keys v.attached
    × (v.winner ≡ first_of (to_list none ++ v.attached))
choose-Chosen_example = choose-Chosen resolution none

best_sent-IsBest_example :
    let alts = filter_alternatives second_asked apple resolution false in
    IsBest resolution alts []
      (surviving [] resolution alts.survivors).0
      (best_sent second_asked resolution [] (first_verdict none false) apple).1
best_sent-IsBest_example =
    best_sent-IsBest resolution second_asked [] (first_verdict none false) apple

gather-IsConsistent_example :
    All (IsConsistent resolution) (gather_consistent_claims resolution (claim ∷ rival ∷ []))
gather-IsConsistent_example = gather-IsConsistent resolution (claim ∷ rival ∷ [])

gather-Every_example :
    In rival (claims_of (gather_consistent_claims resolution (claim ∷ rival ∷ [])))
gather-Every_example = gather-Every resolution (claim ∷ rival ∷ []) rival (In.there In.here)

find_user_choice-IsAnswer_example : IsAnswer resolution pick (find_user_choice resolution pick)
find_user_choice-IsAnswer_example = find_user_choice-IsAnswer resolution pick
