-- ===== src/Corpact/Decided.antt =====
-- What a decision makes of an action.
use stonks.Base.{Bool, true, false}
use stonks.Corpact.{Decision, spin_off_price_factor, rights_issue}

-- An action either restates the quantity held, or is unknown, or is decided as a type that keeps
-- the quantity: a spin off or a rights issue.
abbrev pub keeps : Decision → Bool
keeps spin_off_price_factor = true
keeps rights_issue = true
keeps _ = false
