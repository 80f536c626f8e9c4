-- ===== src/Identity/Resolve/Merge.antt =====
-- The instruments that a response brings together: `mergeConflict` and `refuse` of
-- server/internal/identity/resolve/merge.go, and `heldBy` of target.go. The texts of the conflicts are
-- left out, and an instrument is told apart by its id.
pub mod Conflict
pub mod Agree
use Prim.Native.String.{String}
use text.Mathlib.Text.{◌==◌ as str_eq}
use stonks.Base.{
  ℕ, Bool, true, false, not, ◌&&◌, Option, none, some, List, [], ◌∷◌, ◌++◌, map, any, filter_b,
  flat_map, ◌==◌, if◌then◌else◌,
}
use stonks.Types.AssetClass.{AssetClass, disjoint}
use stonks.Types.Identifier.{Identifier, IdentifierType, exclusive, ticker}
use stonks.Types.Instr.{identified_by}
use stonks.Identity.Group.{identifier_eq}
use stonks.Identity.Resolve.Claim.{IdentityClaim, type_eq}

pub record ListingRow : Type 0 where
  pub id : ℕ
  pub currency : String

pub record IdentifierRow : Type 0 where
  pub identifier : Identifier
  pub instr_id : ℕ
  pub listing_id : Option ℕ

pub record StoredInstr : Type 0 where
  pub id : ℕ
  pub asset_class : AssetClass
  pub listings : List ListingRow
  pub identifiers : List IdentifierRow

pub record InstrMatch : Type 0 where
  pub instr : StoredInstr
  pub matched : List Identifier

-- famOf, from the listings of one instrument.
unfoldable pub families_of : List ListingRow → (ℕ → String) → ℕ → String
families_of [] fam = fam
families_of (l ∷ ls) fam = families_of ls (λ k. if k == l.id then l.currency else fam k)

pub record Key : Type 0 where
  pub typ : IdentifierType
  pub domain : String
  pub family : String

unfoldable pub key_eq : Key → Key → Bool
unfolding type_eq
key_eq k l = type_eq k.typ l.typ && (str_eq k.domain l.domain && str_eq k.family l.family)

unfoldable pub key_of : (ℕ → String) → IdentifierRow → Key
key_of fam row = record {
  typ = row.identifier.type;
  domain = row.identifier.domain;
  family = elim row.listing_id [ some l ↦ fam l | none ↦ "" ];
}

-- The first row seen of each key.
abbrev pub FirstSeen : Type 0
FirstSeen = List (Key × IdentifierRow)

unfoldable pub seen : Key → FirstSeen → Option IdentifierRow
unfolding key_eq
seen k [] = none
seen k ((l, row) ∷ first) = if key_eq k l then some row else seen k first

-- The rows that the loop ends at, the prior one first.
abbrev pub Conflicting : Type 0
Conflicting = Option (IdentifierRow × IdentifierRow)

abbrev pub differs : IdentifierRow → IdentifierRow → Bool
differs prior row =
    not (str_eq prior.identifier.value row.identifier.value) && not (prior.instr_id == row.instr_id)

unfoldable pub conflict_row : (ℕ → String) → IdentifierRow → FirstSeen → FirstSeen × Conflicting
unfolding seen key_of exclusive
conflict_row fam row first =
    let k = key_of fam row in
    if not (exclusive row.identifier) then (first, none) else elim (seen k first) [
      | some prior ↦ if differs prior row then (first, some (prior, row)) else (first, none)
      | none ↦ ((k, row) ∷ first, none)
    ]

-- A loop returns at the first conflict, and otherwise goes on with what it has seen.
abbrev pub unless_found :
    FirstSeen × Conflicting → FirstSeen × Conflicting → FirstSeen × Conflicting
unless_found r rest = elim r.1 [ some c ↦ (r.0, some c) | none ↦ rest ]

unfoldable pub conflict_rows :
    (ℕ → String) → List IdentifierRow → FirstSeen → FirstSeen × Conflicting
unfolding conflict_row
conflict_rows fam [] first = (first, none)
conflict_rows fam (row ∷ rows) first =
    let r = conflict_row fam row first in unless_found r (conflict_rows fam rows r.0)

abbrev pub fam_of : StoredInstr → ℕ → String
unfolding families_of
fam_of i = families_of i.listings (λ k. "")

unfoldable pub conflict_matches : List InstrMatch → FirstSeen → FirstSeen × Conflicting
unfolding conflict_rows fam_of
conflict_matches [] first = (first, none)
conflict_matches (h ∷ ms) first =
    let r = conflict_rows (fam_of h.instr) h.instr.identifiers first in
    unless_found r (conflict_matches ms r.0)

unfoldable pub classes_conflict : List InstrMatch → Bool
unfolding disjoint
classes_conflict [] = false
classes_conflict (a ∷ ms) =
    if any (λ b. disjoint a.instr.asset_class b.instr.asset_class) ms
    then true
    else classes_conflict ms

-- Whether there is a conflict.
unfoldable pub merge_conflict : List InstrMatch → Bool
unfolding conflict_matches classes_conflict
merge_conflict ms = elim (conflict_matches ms []).1 [ some c ↦ true | none ↦ classes_conflict ms ]

-- What `refuse` keeps and leaves apart: the instrument, and the identifiers of the others.
pub record Refused : Type 0 where
  pub instr : StoredInstr
  pub taken : List Identifier

unfoldable pub matching : Identifier → List InstrMatch → Option InstrMatch
unfolding identifier_eq
matching id [] = none
matching id (h ∷ ms) = if any (λ d. identifier_eq d id) h.matched then some h else matching id ms

-- The loop over the stated identifiers.
unfoldable pub kept_of : List Identifier → InstrMatch → List InstrMatch → InstrMatch
unfolding matching
kept_of [] first ms = first
kept_of (id ∷ ids) first ms = elim (matching id ms) [ some h ↦ h | none ↦ kept_of ids first ms ]

unfoldable pub lookup_ids : List Identifier → List Identifier
unfolding ticker
lookup_ids ids = filter_b (λ id. not (ticker id)) ids

-- The answer for the matches `first ∷ rest`.
unfoldable pub refuse : List Identifier → InstrMatch → List InstrMatch → Refused
unfolding kept_of lookup_ids
refuse ids first rest =
    let kept = kept_of (lookup_ids ids) first (first ∷ rest) in
    record {
      instr = kept.instr;
      taken =
          flat_map
            (λ h.
              if h.instr.id == kept.instr.id
              then []
              else map (λ r. r.identifier) h.instr.identifiers)
            (first ∷ rest);
    }

-- The identifier of the claim that identifies another instrument.
unfoldable pub held_from : IdentityClaim → List Identifier → Option Identifier
unfolding identified_by
held_from c [] = none
held_from c (id ∷ ids) = if identified_by c.instr id then some id else held_from c ids

unfoldable pub held_by : IdentityClaim → List InstrMatch → Option Identifier
unfolding held_from
held_by c [] = none
held_by c (m ∷ ms) = elim (held_from c m.matched) [ some id ↦ some id | none ↦ held_by c ms ]
