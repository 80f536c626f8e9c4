-- ===== src/Types/Identifier/Strength.antt =====
-- How identifiers rank.
use stonks.Base.{◌+◌, Bool, true, false, not, ◌&&◌, ◌||◌, ◌≡◌, arith, ltb, if◌then◌else◌}
use stonks.Types.Identifier.{Identifier, trait, stable, strength, is_issuer, is_listing}

-- Whether the first of two tests fails and the second holds, or they agree and `rest` decides.
abbrev pub first_then : Bool → Bool → Bool → Bool
first_then true b rest = b && rest
first_then false b rest = b || rest

weights :
    (a b c d e f : Bool)
    → ltb
        ((if a then 4 else 0) + (if b then 2 else 0) + (if c then 1 else 0))
        ((if d then 4 else 0) + (if e then 2 else 0) + (if f then 1 else 0))
      ≡ first_then a d (first_then b e (first_then c f false))
weights a b c d e f = ground arith

-- An identifier is stronger than another exactly when the other is an issuer's own and it is not;
-- where they agree, when the other is reassignable and it is stable; and where they agree on that
-- too, when the other names a listing and it names an instrument.
pub ltb-strength :
    (i j : Identifier)
    → ltb (strength i) (strength j)
      ≡ first_then (is_issuer (trait i.type).domain) (is_issuer (trait j.type).domain) (
          first_then
            (not (stable i))
            (not (stable j))
            (first_then (is_listing (trait i.type).grain) (is_listing (trait j.type).grain) false))
unfolding strength
ltb-strength i j =
    weights (is_issuer (trait i.type).domain) (not (stable i)) (is_listing (trait i.type).grain)
      (is_issuer (trait j.type).domain) (not (stable j)) (is_listing (trait j.type).grain)
