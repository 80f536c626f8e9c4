-- ===== src/Identity/Resolve/Claim.antt =====
-- Identity claims and how they agree: server/internal/identity/resolve/claim.go, with `noFamily` of
-- currency.go. Fetch keys are told apart by their ids, as the code tells them apart by their
-- addresses. The texts of the details are left out.
pub mod Strongest
use Prim.Native.String.{String}
use text.Mathlib.Text.{◌==◌ as str_eq}
use mathlib.Core.Logic.{ite}
use stonks.Base.{
  ℕ, suc, ◌+◌, Bool, true, false, not, ◌&&◌, ◌||◌, Option, none, some, List, [], ◌∷◌, ◌++◌, map,
  any, filter_b, flat_map, ltb, ◌==◌, if◌then◌else◌,
}
use stonks.Types.Time.{day}
use stonks.Types.AssetClass.{AssetClass, class_eq, disjoint}
use stonks.Types.Identifier.{
  Identifier, IdentifierType, IdentifierType-discrete, trait, is_listing, exclusive, stable,
  strength,
}
use stonks.Types.MarketTicker.{MarketTicker, ticker_eq}
use stonks.Types.Instr.{
  Listing, ByFamily, Instr, listing_of, put_listing, has_family, all_ids, identified_by,
}
use stonks.Currency.{Families}
use stonks.Mic.{MicMap, market_ticker}
use stonks.Market
use stonks.Market.{FetchKey}
use stonks.Identity.Group.{identifier_eq}

-- The family of a currency that the system does not know.
abbrev pub no_family : String
no_family = ""

-- The fetch key is none for the claim of the database.
pub record IdentityClaim : Type 0 where
  pub fetch_key : Option FetchKey
  pub instr : Instr

-- What a resolution knows of its key: what the key states, and the answers.
pub record Resolution : Type 0 where
  pub identifiers : List Identifier
  pub asset_class : Option AssetClass
  pub family : String
  pub families : Families
  pub mics : MicMap
  pub fetch_keys : List FetchKey

unfoldable pub named : IdentityClaim → Bool
unfolding identified_by
named c = elim c.fetch_key [
  | none ↦ false
  | some fk ↦ elim fk.sent_id [ none ↦ false | some sent ↦ identified_by c.instr sent ]
]

abbrev pub of_listing : Identifier → Bool
of_listing id = is_listing (trait id.type).grain

unfoldable pub append_unique : List Identifier → Identifier → List Identifier
unfolding identifier_eq
append_unique ids id = if any (λ h. identifier_eq h id) ids then ids else ids ++ id ∷ []

-- The loop over the identifiers of a returned listing.
unfoldable pub add_ids : List Identifier → Instr × Listing → Instr × Listing
unfolding append_unique trait
add_ids [] s = s
add_ids (id ∷ ids) (i, l) = add_ids ids (
    if of_listing id
    then (i, record l { identifiers = append_unique l.identifiers id })
    else (record i { identifiers = append_unique i.identifiers id }, l))

unfoldable pub add : Instr → Market.Listing → String → Instr
unfolding class_eq listing_of put_listing add_ids
add i listing fam =
    let unset = class_eq i.class AssetClass.none || class_eq i.class AssetClass.unknown in
    let classed = record i { class = if unset then listing.class else i.class } in
    let (i', l) = add_ids listing.identifiers (classed, listing_of fam i.listings) in
    let primary = if str_eq l.primary "" then listing.primary else l.primary in
    record i' { listings = put_listing fam (record l { primary = primary }) i'.listings }

-- The families of a claim, in order, without that of no family.
unfoldable pub listed : IdentityClaim → List String
listed c = filter_b (λ f. not (str_eq f no_family)) (map (λ e. e.0) c.instr.listings)

unfoldable pub type_eq : IdentifierType → IdentifierType → Bool
unfolding IdentifierType-discrete
type_eq a b = ite (IdentifierType-discrete a b) true false

-- The loop over the pool, with the last other value found.
unfoldable pub contradict_from :
    Identifier → Option Identifier → List Identifier → Option Identifier
unfolding type_eq
contradict_from id found [] = found
contradict_from id found (h ∷ pool) =
    let skipped = contradict_from id found pool in
    let other = contradict_from id (some h) pool in
    if not (type_eq h.type id.type) || not (str_eq h.domain id.domain)
    then skipped
    else if str_eq h.value id.value
    then none
    else other

-- The identifiers that may name what `id` names.
unfoldable pub pool_of : IdentityClaim → Identifier → String → List Identifier
unfolding trait
pool_of c id fam =
    if of_listing id
    then flat_map
        (λ e.
          if str_eq fam no_family || (str_eq e.0 fam || str_eq e.0 no_family)
          then e.1.identifiers
          else [])
        c.instr.listings
    else c.instr.identifiers

unfoldable pub contradicts : IdentityClaim → Identifier → String → Option Identifier
unfolding exclusive pool_of contradict_from
contradicts c id fam =
    if not (exclusive id) then none else contradict_from id none (pool_of c id fam)

abbrev pub is_some {ℓ} : {A : Type ℓ} → Option A → Bool
is_some none = false
is_some (some a) = true

abbrev pub stronger : Identifier → Option Identifier → Bool
stronger id none = true
stronger id (some b) = ltb (strength id) (strength b)

-- The first of the strongest identifiers that pass a test.
unfoldable pub strongest_from :
    (Identifier → Bool) → Option Identifier → List Identifier → Option Identifier
unfolding strength
strongest_from f best [] = best
strongest_from f best (id ∷ ids) =
    strongest_from f (if f id && stronger id best then some id else best) ids

unfoldable pub strongest : IdentityClaim → Option Identifier
unfolding strongest_from all_ids
strongest c = strongest_from (λ id. true) none (all_ids c.instr)

unfoldable pub strongest_stable : IdentityClaim → Option Identifier
unfolding strongest_from all_ids stable
strongest_stable c = strongest_from stable none (all_ids c.instr)

abbrev pub limited : IdentityClaim → Bool
limited c = elim c.fetch_key [ none ↦ false | some fk ↦ fk.response.limited ]

-- The stated currency has no listing among those of the claim.
unfoldable pub lacks_family : IdentityClaim → String → Bool
unfolding listed
lacks_family c fam =
    not (limited c)
    && (not (str_eq fam no_family)
        && (any (λ f. true) (listed c)
            && (not (any (λ f. str_eq f fam) (listed c))
                && not (has_family no_family c.instr.listings))))

-- Whether what the key states contradicts the claim of an answer.
unfoldable pub against : IdentityClaim → Resolution → Bool
unfolding lacks_family disjoint contradicts
against c res =
    lacks_family c res.family
    || (elim res.asset_class [ none ↦ false | some k ↦ disjoint c.instr.class k ]
        || any (λ id. is_some (contradicts c id res.family)) res.identifiers)

-- Whether the claim contradicts `a`, a claim chosen above it.
unfoldable pub inconsistent : IdentityClaim → IdentityClaim → Bool
unfolding disjoint contradicts
inconsistent c a =
    disjoint c.instr.class a.instr.class
    || (any (λ id. is_some (contradicts c id no_family)) a.instr.identifiers
        || any (λ e. any (λ id. is_some (contradicts c id e.0)) e.1.identifiers) a.instr.listings)

unfoldable pub shares_stable : IdentityClaim → IdentityClaim → Bool
unfolding all_ids stable identified_by
shares_stable c a = any (λ id. stable id && identified_by a.instr id) (all_ids c.instr)

-- The market tickers of some identifiers.
unfoldable pub market_tickers : MicMap → List Identifier → List MarketTicker
unfolding market_ticker
market_tickers mics [] = []
market_tickers mics (id ∷ ids) =
    let rest = market_tickers mics ids in
    elim (market_ticker mics id) [ none ↦ rest | some t ↦ t ∷ rest ]

unfoldable pub same_day_ticker : IdentityClaim → IdentityClaim → MicMap → Bool
unfolding day market_tickers all_ids ticker_eq
same_day_ticker c a mics = elim c.fetch_key [
  | none ↦ false
  | some fk ↦ elim a.fetch_key [
    | none ↦ false
    | some gk ↦
        day fk.answered_at == day gk.answered_at
        && any (λ t. any (ticker_eq t) (market_tickers mics (all_ids a.instr)))
            (market_tickers mics (all_ids c.instr))
  ]
]

unfoldable pub corroborates : IdentityClaim → IdentityClaim → MicMap → Bool
unfolding shares_stable same_day_ticker
corroborates c a mics = shares_stable c a || same_day_ticker c a mics

unfoldable pub count : (Identifier → Bool) → List Identifier → ℕ
count f [] = 0
count f (id ∷ ids) = if f id then suc (count f ids) else count f ids

unfoldable pub confirms : IdentityClaim → Resolution → ℕ
unfolding count identified_by
confirms c res =
    count (identified_by c.instr) res.identifiers
    + (if has_family res.family c.instr.listings && not (str_eq res.family no_family) then 1 else 0)
