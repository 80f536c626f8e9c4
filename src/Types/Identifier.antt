-- ===== src/Types/Identifier.antt =====
-- Identifiers and the traits of their types: server/internal/types/identifier.go and
-- server/internal/types/trait.go. A string outside the enum, whose traits are Go's zero value, is
-- not modelled.
pub mod Strength
use Prim.Native.String.{String}
use text.Mathlib.Text.{◌==◌ as str_eq}
use stonks.Base.{ℕ, ◌+◌, Bool, true, false, not, ◌&&◌, ◌||◌, if◌then◌else◌}

pub data IdentifierType : Type 0 where
  isin cusip cins wertpapier openfigi_share_class sedol openfigi_composite mic_ticker occ currency
        datasource_ticker broker_id broker_description option :
      IdentifierType

unfoldable pub IdentifierType-discrete : Discrete IdentifierType
IdentifierType-discrete = hlevel

pub data IdentifierDomain : Type 0 where
  global venue issuer : IdentifierDomain

pub data IdentifierGrain : Type 0 where
  instr listing : IdentifierGrain

pub data IdentifierReassignment : Type 0 where
  always mic_derived unverifiable : IdentifierReassignment

pub record Trait : Type 0 where
  pub domain : IdentifierDomain
  pub grain : IdentifierGrain
  pub reassignment : IdentifierReassignment
  pub exclusive : Bool
  pub name_rank : ℕ

pub record Identifier : Type 0 where
  pub type : IdentifierType
  pub domain : String
  pub value : String

unfoldable pub trait : IdentifierType → Trait
trait isin = record {
  domain = global;
  grain = instr;
  reassignment = always;
  exclusive = true;
  name_rank = 7;
}
trait cusip = record {
  domain = global;
  grain = instr;
  reassignment = always;
  exclusive = true;
  name_rank = 8;
}
trait cins = record {
  domain = global;
  grain = instr;
  reassignment = always;
  exclusive = true;
  name_rank = 10;
}
trait wertpapier = record {
  domain = global;
  grain = instr;
  reassignment = always;
  exclusive = true;
  name_rank = 11;
}
trait openfigi_share_class = record {
  domain = global;
  grain = instr;
  reassignment = always;
  exclusive = true;
  name_rank = 14;
}
trait sedol = record {
  domain = global;
  grain = listing;
  reassignment = always;
  exclusive = true;
  name_rank = 9;
}
trait openfigi_composite = record {
  domain = global;
  grain = listing;
  reassignment = always;
  exclusive = false;
  name_rank = 12;
}
trait mic_ticker = record {
  domain = venue;
  grain = listing;
  reassignment = mic_derived;
  exclusive = true;
  name_rank = 4;
}
trait occ = record {
  domain = global;
  grain = instr;
  reassignment = mic_derived;
  exclusive = true;
  name_rank = 1;
}
trait currency = record {
  domain = global;
  grain = instr;
  reassignment = always;
  exclusive = true;
  name_rank = 3;
}
trait datasource_ticker = record {
  domain = issuer;
  grain = listing;
  reassignment = mic_derived;
  exclusive = true;
  name_rank = 6;
}
trait broker_id = record {
  domain = issuer;
  grain = instr;
  reassignment = always;
  exclusive = true;
  name_rank = 15;
}
trait broker_description = record {
  domain = issuer;
  grain = instr;
  reassignment = unverifiable;
  exclusive = false;
  name_rank = 5;
}
trait option = record {
  domain = global;
  grain = instr;
  reassignment = mic_derived;
  exclusive = true;
  name_rank = 2;
}

unfoldable pub is_domain : Identifier → Bool
is_domain i = str_eq i.value "" && not (str_eq i.domain "")

unfoldable pub is_global : Identifier → Bool
unfolding trait
is_global i = elim (trait i.type).domain [
  | global ↦ true
  | venue ↦ not (str_eq i.domain "")
  | issuer ↦ false
]

abbrev pub domain_is_global : IdentifierDomain → Bool
domain_is_global global = true
domain_is_global _ = false

unfoldable pub joining : Identifier → Bool
unfolding trait
joining i = domain_is_global (trait i.type).domain || not (str_eq i.domain "")

abbrev pub is_listing : IdentifierGrain → Bool
is_listing listing = true
is_listing instr = false

unfoldable pub exclusive : Identifier → Bool
unfolding trait
exclusive i = (trait i.type).exclusive

unfoldable pub stable : Identifier → Bool
unfolding trait
stable i = elim (trait i.type).reassignment [ always ↦ true | _ ↦ false ]

unfoldable pub ticker : Identifier → Bool
ticker i = elim i.type [ mic_ticker ↦ true | datasource_ticker ↦ true | _ ↦ false ]

abbrev pub is_issuer : IdentifierDomain → Bool
is_issuer issuer = true
is_issuer _ = false

unfoldable pub strength : Identifier → ℕ
unfolding trait stable
strength i =
    (if is_issuer (trait i.type).domain then 4 else 0)
    + (if not (stable i) then 2 else 0)
    + (if is_listing (trait i.type).grain then 1 else 0)
