-- ===== src/Mic/Probes.antt =====
-- The venues of a market, and when its probes fail.
use Prim.Native.String.{String}
use text.Mathlib.Text.{◌==◌ as str_eq}
use stonks.Base.{
  Bool, true, false, not, ◌&&◌, ◌||◌, Option, none, some, List, [], ◌∷◌, ◌++◌, ◌≡◌, ◌≢◌, ◌↔◌, refl,
  ap, ap₂, subst, ◌∙◌, arith, any, Bool-cases, inl, inr, ◌>>=◌,
}
use stonks.Base.Any.{any-stable_sort}
use stonks.Types.MarketTicker.{MarketTicker}
use stonks.Base.Text.{str_le}
use stonks.Mic.{
  MicMap, is_market, venues_of, venues, ProbeObject, probe, venue_probes, market_probes,
  ticker_probes,
}

any-venues_of :
    (f : String → Bool) (t : MicMap) (mk : String)
    → any f (venues_of t mk) ≡ any (λ e. str_eq e.1.market mk && f e.0) t
unfolding venues_of
any-venues_of f [] mk = refl
any-venues_of f ((m, e) ∷ t) mk = ground (arith, any-venues_of f t mk)

-- A test holds of a venue of a market exactly when it holds of a MIC of that market.
pub any-venues :
    (f : String → Bool) (t : MicMap) (mk : String)
    → any f (venues t mk) ≡ any (λ e. str_eq e.1.market mk && f e.0) t
unfolding venues
any-venues f t mk = any-stable_sort f str_le (venues_of t mk) ∙ any-venues_of f t mk

any-true : (t : MicMap) (mk : String) → any (λ e. str_eq e.1.market mk && true) t ≡ is_market t mk
unfolding is_market
any-true [] mk = refl
any-true (e ∷ t) mk = ground (arith, any-true t mk)

fails : {A : Type 0} → Option A → Bool
fails none = true
fails (some a) = false

fails_iff : {A : Type 0} (o : Option A) → (o ≡ none) ↔ (fails o ≡ true)
unfolding fails
fails_iff none = (λ e. refl, λ e. refl)
fails_iff (some a) = (λ e. absurd (cc e), λ e. absurd (cc e))

-- Two calls fail where one of them does.
fails_both :
    {A B C : Type 0} (m : Option A) (n : Option B) (f : A → B → C)
    → fails (m >>= λ a. n >>= λ b. some (f a b)) ≡ (fails m || fails n)
unfolding fails
fails_both none n f = refl
fails_both (some a) none f = refl
fails_both (some a) (some b) f = refl

module _ {B : Type 0} (marshal : List ProbeObject → Option B)
    (marshals : (os : List ProbeObject) → marshal os ≢ none) where
  marshal-some : (os : List ProbeObject) → fails (marshal os) ≡ false
  marshal-some os = elim (Bool-cases (fails (marshal os))) [
    | inl e ↦ absurd (marshals os ((fails_iff (marshal os)).1 e))
    | inr e ↦ e
  ]

  venue_probes-some :
      (value : String) (vs : List String) → fails (venue_probes marshal value vs) ≡ false
  unfolding venue_probes probe fails
  venue_probes-some value [] = refl
  venue_probes-some value (v ∷ vs) =
      fails_both (probe marshal _) (venue_probes marshal value vs) ◌∷◌
      ∙ ap₂ ◌||◌ (marshal-some _) (venue_probes-some value vs)

  market_probes-fails :
      (mt : MarketTicker) (vs : List String)
      → fails (market_probes marshal mt vs) ≡ not (any (λ v. true) vs)
  unfolding market_probes fails
  market_probes-fails mt [] = refl
  market_probes-fails mt (v ∷ vs) = venue_probes-some mt.value (v ∷ vs)

  ticker_probes-fails :
      (t : MicMap) (ts : List MarketTicker)
      → fails (ticker_probes marshal t ts) ≡ any (λ mt. not (is_market t mt.market)) ts
  unfolding ticker_probes fails
  ticker_probes-fails t [] = refl
  ticker_probes-fails t (mt ∷ ts) =
      fails_both (market_probes marshal mt (venues t mt.market)) (ticker_probes marshal t ts) ◌++◌
      ∙ ap₂ ◌||◌
          (market_probes-fails mt (venues t mt.market)
            ∙ ap not (any-venues (λ v. true) t mt.market ∙ any-true t mt.market))
          (ticker_probes-fails t ts)

  -- Where the encoding of an object does not fail, the probes of tickers fail exactly when the market
  -- of one of them is the market of no MIC.
  pub ticker_probes-none_iff :
      (t : MicMap) (ts : List MarketTicker)
      → (ticker_probes marshal t ts ≡ none) ↔ (any (λ mt. not (is_market t mt.market)) ts ≡ true)
  ticker_probes-none_iff t ts =
      subst (λ b. (ticker_probes marshal t ts ≡ none) ↔ (b ≡ true)) (ticker_probes-fails t ts)
        (fails_iff (ticker_probes marshal t ts))
