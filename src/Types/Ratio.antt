-- ===== src/Types/Ratio.antt =====
-- server/internal/types/ratio.go. A decimal belongs to the library github.com/shopspring/decimal,
-- which the source calls: its type and operations are a parameter. `rat` is the fraction that a
-- decimal is, a numerator over a denominator; the database keeps both parts of a ratio positive.
use stonks.Base.{ℕ, Bool}

pub record Decimals (D : Type 0) : Type 0 where
  pub mul : D → D → D
  pub equal : D → D → Bool
  pub greater : D → D → Bool
  pub less : D → D → Bool
  pub rat : D → ℕ × ℕ

-- `from` units before an action become `to` units after it.
pub record Ratio (D : Type 0) : Type 0 where
  pub from : D
  pub to : D

unfoldable pub ratio_equal : {D : Type 0} → Decimals D → Ratio D → Ratio D → Bool
ratio_equal dec r o = dec.equal (dec.mul r.from o.to) (dec.mul r.to o.from)
