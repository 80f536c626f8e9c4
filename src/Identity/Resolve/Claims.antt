-- ===== src/Identity/Resolve/Claims.antt =====
-- The claims of one answer: `claims`, `partition`, `root` and `union` of
-- server/internal/identity/resolve/claim.go. The array of the parents is a function. `root` runs on
-- fuel, for one round more than the unions that may have been made.
pub mod Forest
pub mod Join
pub mod Linked
pub mod Partition
pub mod Parts
pub mod Rounds
use Prim.Native.String.{String}
use stonks.Base.{
  ℕ, suc, ◌+◌, Bool, true, not, none, some, List, [], ◌∷◌, map, length, any, filter_b, ◌==◌,
  if◌then◌else◌,
}
use stonks.Types.AssetClass.{AssetClass}
use stonks.Types.Identifier.{Identifier}
use stonks.Types.Instr.{Instr}
use stonks.Currency.{Families, family}
use stonks.Market
use stonks.Market.{FetchKey}
use stonks.Identity.Group.{Parent, First, put, find_from, stated_first}
use stonks.Identity.Resolve.Claim.{IdentityClaim, of_listing, add}

-- The loop of `root`, which is that of `find` in group.go.
unfoldable pub root : ℕ → Parent → ℕ → Parent × ℕ
unfolding find_from
root fuel p i = find_from fuel p i

unfoldable pub union : ℕ → Parent → ℕ → ℕ → Parent
unfolding root put
union fuel p a b =
    let (p', ra) = root fuel p a in
    let (p'', rb) = root fuel p' b in if ra == rb then p'' else put p'' rb ra

-- One identifier of the returned listing `i`, with the owner of each identifier.
unfoldable pub own : ℕ → ℕ → Identifier → First × Parent → First × Parent
unfolding stated_first union
own fuel i id (owner, p) = if of_listing id then (owner, p) else elim (stated_first id owner) [
  | some j ↦ (owner, union fuel p j i)
  | none ↦ ((id, i) ∷ owner, p)
]

unfoldable pub own_all : ℕ → ℕ → List Identifier → First × Parent → First × Parent
unfolding own
own_all fuel i [] s = s
own_all fuel i (id ∷ ids) s = own_all fuel i ids (own fuel i id s)

unfoldable pub part_from : ℕ → Bool → ℕ → List Market.Listing → First × Parent → First × Parent
unfolding own_all put union
part_from fuel strict i [] s = s
part_from fuel strict i (c ∷ ls) (owner, p) =
    let alone = put p i i in
    part_from fuel strict (suc i) ls
      (own_all fuel i c.identifiers (owner, if strict then union fuel alone 0 i else alone))

-- The last loop: the root of each index from `i` on.
unfoldable pub roots_from : ℕ → ℕ → List Market.Listing → Parent → List ℕ
unfolding root
roots_from fuel i [] p = []
roots_from fuel i (c ∷ ls) p = let (p', r) = root fuel p i in r ∷ roots_from fuel (suc i) ls p'

-- A union is made for a listing, or for one of its identifiers.
unfoldable pub unions : List Market.Listing → ℕ
unions [] = 0
unions (c ∷ ls) = suc (length c.identifiers) + unions ls

unfoldable pub partition : List Market.Listing → Bool → List ℕ
unfolding part_from roots_from unions
partition ls strict =
    let fuel = suc (unions ls) in roots_from fuel 0 ls (part_from fuel strict 0 ls ([], λ k. 0)).1

-- The claims so far, each with the root that stands for it, in order of their first listings.
abbrev pub Roots : Type 0
Roots = List (ℕ × Instr)

unfoldable pub add_to : List Identifier → ℕ → Market.Listing → String → Roots → Roots
unfolding add
add_to strict r listing fam [] =
    (r, add (record { class = AssetClass.none; identifiers = strict; listings = [] }) listing fam)
    ∷ []
add_to strict r listing fam ((s, c) ∷ out) =
    let rest = add_to strict r listing fam out in
    if s == r then (s, add c listing fam) ∷ out else (s, c) ∷ rest

unfoldable pub add_all : Families → List Identifier → List Market.Listing → List ℕ → Roots → Roots
unfolding add_to family
add_all families strict [] rs out = out
add_all families strict (l ∷ ls) [] out = out
add_all families strict (l ∷ ls) (r ∷ rs) out =
    add_all families strict ls rs (add_to strict r l (family families l.currency) out)

unfoldable pub claims : FetchKey → Families → List IdentityClaim
unfolding partition add_all
claims fk families =
    let strict = filter_b (λ id. not (of_listing id)) fk.response.filtered in
    let ls = fk.response.listings in
    let rs = partition ls (any (λ id. true) strict) in
    map (λ e. record { fetch_key = some fk; instr = e.1 }) (add_all families strict ls rs [])
