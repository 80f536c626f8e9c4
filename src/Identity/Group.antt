-- ===== src/Identity/Group.antt =====
-- The groups of a user's keys: server/internal/identity/group/group.go, a union-find that keeps the
-- smaller root. A map is a function, a missing key of `parent` having the zero id. `find` runs on
-- fuel, for one round more than the number of its key.
pub mod Roots
pub mod Halve
pub mod Union
pub mod Joined
pub mod Components
pub mod Least
use Prim.Native.String.{String}
use text.Mathlib.Text.{◌==◌ as str_eq}
use mathlib.Core.Logic.{ite}
use stonks.Base.{
  ℕ, zero, suc, Bool, true, false, not, ◌&&◌, Option, none, some, List, [], ◌∷◌, map, ltb, ◌==◌,
  if◌then◌else◌,
}
use stonks.Types.Identifier.{Identifier, IdentifierType-discrete, joining}

abbrev pub Parent : Type 0
Parent = ℕ → ℕ

-- m[k] = v
unfoldable pub put : Parent → ℕ → ℕ → Parent
put p k v x = if x == k then v else p x

-- The loop of `find`, halving the path as it walks.
unfoldable pub find_from : ℕ → Parent → ℕ → Parent × ℕ
find_from zero p k = (p, k)
find_from (suc f) p k =
    let rest = find_from f (put p k (p (p k))) (p (p k)) in if p k == k then (p, k) else rest

unfoldable pub find : Parent → ℕ → Parent × ℕ
unfolding find_from
find p k = find_from (suc k) p k

-- `parent[rb] = ra`, where `ra` is the smaller root.
unfoldable pub hang : Parent → ℕ → ℕ → Parent
unfolding put
hang p ra rb = if ra == rb then p else if ltb rb ra then put p ra rb else put p rb ra

unfoldable pub union : Parent → ℕ → ℕ → Parent
unfolding find hang
union p a b = let (p', ra) = find p a in let (p'', rb) = find p' b in hang p'' ra rb

pub record StatedKey : Type 0 where
  pub id : ℕ
  pub identifiers : List Identifier

unfoldable pub identifier_eq : Identifier → Identifier → Bool
unfolding IdentifierType-discrete
identifier_eq i j =
    ite (IdentifierType-discrete i.type j.type) true false
    && (str_eq i.domain j.domain && str_eq i.value j.value)

-- The first key seen stating each identifier.
abbrev pub First : Type 0
First = List (Identifier × ℕ)

unfoldable pub stated_first : Identifier → First → Option ℕ
unfolding identifier_eq
stated_first i [] = none
stated_first i ((j, id) ∷ first) = if identifier_eq i j then some id else stated_first i first

unfoldable pub join : Identifier → ℕ → First × Parent → First × Parent
unfolding stated_first union
join k id (first, p) = elim (stated_first k first) [
  | some held ↦ (first, union p held id)
  | none ↦ ((k, id) ∷ first, p)
]

-- The loop over the identifiers of one key.
unfoldable pub join_key : ℕ → List Identifier → First × Parent → First × Parent
unfolding join joining
join_key id [] s = s
join_key id (i ∷ is) s = join_key id is (if joining i then join i id s else s)

unfoldable pub join_keys : List StatedKey → First × Parent → First × Parent
unfolding join_key
join_keys [] s = s
join_keys (k ∷ ks) s = join_keys ks (join_key k.id k.identifiers s)

unfoldable pub start : List StatedKey → Parent → Parent
unfolding put
start [] p = p
start (k ∷ ks) p = start ks (put p k.id k.id)

abbrev pub no_parent : Parent
no_parent k = 0

-- The last loop: the root of each key, on the map that the one before it left.
unfoldable pub roots : List StatedKey → Parent → List (ℕ × ℕ)
unfolding find
roots [] p = []
roots (k ∷ ks) p = let (p', r) = find p k.id in (k.id, r) ∷ roots ks p'

unfoldable pub of : List StatedKey → List (ℕ × ℕ)
unfolding start join_keys roots
of keys = roots keys (join_keys keys ([], start keys no_parent)).1
