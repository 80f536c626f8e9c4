-- ===== src/Examples/Merging.antt =====
-- The theorem of mergeConflict at an example: two instruments with an ISIN each.
use Prim.Native.String.{String}
use stonks.Base.{
  ℕ, ◌≡◌, ◌↔◌, refl, sym, ap, ◌∙◌, false, none, List, [], ◌∷◌, All, ◌==◌, if◌then◌else◌,
}
use stonks.Types.AssetClass.{AssetClass}
use stonks.Types.Identifier.{Identifier, isin}
use stonks.Base.In.{In, All-In}
use stonks.Identity.Resolve.Merge.{IdentifierRow, InstrMatch, merge_conflict}
use stonks.Identity.Resolve.Merge.Conflict.{OneValue}
use stonks.Identity.Resolve.Merge.Agree.{Carried, IsUnanimous, HasOneClass, merge_conflict-none_iff}

abbrev value_of : ℕ → String
value_of k = if k == 1 then "US0378331005" else "US5949181045"

abbrev isin_of : ℕ → Identifier
isin_of k = record { type = isin; domain = ""; value = value_of k }

abbrev match_of : ℕ → InstrMatch
match_of k = record {
  instr = record {
    id = k;
    asset_class = AssetClass.stock;
    listings = [];
    identifiers = record { identifier = isin_of k; instr_id = k; listing_id = none } ∷ [];
  };
  matched = isin_of k ∷ [];
}

abbrev two : List InstrMatch
two = match_of 1 ∷ match_of 2 ∷ []

two-value :
    All
      (λ (h : InstrMatch).
        All (λ (r : IdentifierRow). r.identifier.value ≡ value_of r.instr_id) h.instr.identifiers)
      two
two-value = ((refl, tt), ((refl, tt), tt))

value-Carried :
    (r : IdentifierRow) (h : InstrMatch)
    → In h two
    → In r h.instr.identifiers
    → r.identifier.value ≡ value_of r.instr_id
value-Carried r h m n =
    All-In (λ (d : IdentifierRow). d.identifier.value ≡ value_of d.instr_id)
      (All-In
        (λ (i : InstrMatch).
          All (λ (d : IdentifierRow). d.identifier.value ≡ value_of d.instr_id) i.instr.identifiers)
        two-value m)
      n

two-OneValue : OneValue (Carried two)
two-OneValue k r s (h, m, n, x, a) (i, o, q, y, b) e =
    value-Carried r h m n ∙ ap value_of e ∙ sym (value-Carried s i o q)

merge_conflict-none_iff_example :
    (merge_conflict two ≡ false) ↔ (IsUnanimous (Carried two) × HasOneClass two)
merge_conflict-none_iff_example = merge_conflict-none_iff two two-OneValue
