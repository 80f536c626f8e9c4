-- ===== src/Types/AssetClass.antt =====
-- server/internal/types/asset_class.go: the tree of asset classes. `none` is Go's "", the parent of
-- the root and the class of a source that states none; no other string outside the enum is modelled.
pub mod Tree
use mathlib.Core.Logic.{ite}
use stonks.Base.{ℕ, zero, suc, Bool, true, false, not, ◌&&◌, ◌||◌}

pub data AssetClass : Type 0 where
  none unknown cash security equity stock etf mutual_fund fixed_income derivative option future :
      AssetClass

unfoldable pub AssetClass-discrete : Discrete AssetClass
AssetClass-discrete = hlevel

unfoldable pub parent : AssetClass → AssetClass
parent none = none
parent unknown = none
parent cash = unknown
parent security = unknown
parent equity = security
parent stock = equity
parent etf = equity
parent mutual_fund = equity
parent fixed_income = security
parent derivative = security
parent option = derivative
parent future = derivative

unfoldable pub class_eq : AssetClass → AssetClass → Bool
unfolding AssetClass-discrete
class_eq a b = ite (AssetClass-discrete a b) true false

-- The loop of `under`, with fuel for its rounds.
unfoldable pub under_from : ℕ → AssetClass → AssetClass → Bool
unfolding class_eq parent
under_from zero c o = false
under_from (suc f) c o =
    let rest = under_from f (parent c) o in
    elim (class_eq c none) [
      | true ↦ false
      | false ↦ elim (class_eq c o) [ true ↦ true | false ↦ rest ]
    ]

-- The tree is four classes deep, and the fifth round ends the loop at "".
abbrev pub rounds : ℕ
rounds = 5

unfoldable pub under : AssetClass → AssetClass → Bool
unfolding under_from
under e o = under_from rounds e o

unfoldable pub disjoint : AssetClass → AssetClass → Bool
unfolding under
disjoint e o = not (under e o) && not (under o e)

unfoldable pub restated : AssetClass → Bool
unfolding class_eq under
restated e = class_eq e equity || (under e stock || under e etf)
