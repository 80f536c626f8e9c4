-- ===== src/Types/Instr.antt =====
-- server/internal/types/instr.go. The map of the listings is a list of entries, one of each family,
-- in order of family.
use Prim.Native.String.{String}
use text.Mathlib.Text.{◌==◌ as str_eq}
use stonks.Base.{Bool, List, [], ◌∷◌, ◌++◌, any, flat_map, if◌then◌else◌}
use stonks.Base.Text.{str_le}
use stonks.Types.AssetClass.{AssetClass}
use stonks.Types.Identifier.{Identifier}
use stonks.Identity.Group.{identifier_eq}

pub record Listing : Type 0 where
  pub identifiers : List Identifier
  pub primary : String

abbrev pub ByFamily : Type 0
ByFamily = List (String × Listing)

pub record Instr : Type 0 where
  pub class : AssetClass
  pub identifiers : List Identifier
  pub listings : ByFamily

-- m[fam], the zero listing where there is none.
unfoldable pub listing_of : String → ByFamily → Listing
listing_of fam [] = record { identifiers = []; primary = "" }
listing_of fam ((f, l) ∷ m) = if str_eq f fam then l else listing_of fam m

-- m[fam] = l
unfoldable pub put_listing : String → Listing → ByFamily → ByFamily
put_listing fam l [] = (fam, l) ∷ []
put_listing fam l ((f, k) ∷ m) =
    let rest = put_listing fam l m in
    if str_eq f fam
    then (fam, l) ∷ m
    else if str_le fam f
    then (fam, l) ∷ (f, k) ∷ m
    else (f, k) ∷ rest

abbrev pub has_family : String → ByFamily → Bool
has_family fam m = any (λ e. str_eq e.0 fam) m

-- The instrument's identifiers first, and then those of each listing.
unfoldable pub all_ids : Instr → List Identifier
all_ids i = i.identifiers ++ flat_map (λ e. e.1.identifiers) i.listings

unfoldable pub identified_by : Instr → Identifier → Bool
unfolding all_ids identifier_eq
identified_by i id = any (λ h. identifier_eq h id) (all_ids i)
