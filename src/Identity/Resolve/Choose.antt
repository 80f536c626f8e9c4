-- ===== src/Identity/Resolve/Choose.antt =====
-- The choice among the claims: server/internal/identity/resolve/choose.go. The texts of the details
-- of a finding are left out.
use stonks.Base.{
  ℕ, suc, Bool, true, false, not, ◌&&◌, Option, none, some, List, [], ◌∷◌, ◌++◌, length, any, ltb,
  ◌==◌, if◌then◌else◌,
}
use stonks.Types.Identifier.{Identifier, mic_ticker, is_global}
use stonks.Mic.{MicMap, is_mic_ticker}
use stonks.Market.{FetchKey}
use stonks.Identity.Group.{identifier_eq}
use stonks.Identity.Resolve.Claim.{
  IdentityClaim, Resolution, named, against, inconsistent, corroborates, confirms,
}
use stonks.Identity.Resolve.Claims.{claims}

pub data FindingKind : Type 0 where
  dropped contradiction : FindingKind

pub data DropStep : Type 0 where
  stated precedence corroboration : DropStep

-- The step is set only where the kind is dropped.
pub record Finding : Type 0 where
  pub kind : FindingKind
  pub fetch_key : Option ℕ
  pub step : Option DropStep

abbrev pub key_id : Option FetchKey → Option ℕ
key_id none = none
key_id (some fk) = some fk.id

unfoldable pub finding : Option FetchKey → FindingKind → DropStep → Finding
finding fk kind step = record {
  kind = kind;
  fetch_key = key_id fk;
  step = elim kind [ dropped ↦ some step | contradiction ↦ none ];
}

-- A head, and the members of the datasources below it.
pub record ConsistentClaims : Type 0 where
  pub head : IdentityClaim
  pub rest : List IdentityClaim

abbrev pub all_claims : ConsistentClaims → List IdentityClaim
all_claims a = a.head ∷ a.rest

-- Whether fk made the claim.
abbrev pub made_by : FetchKey → IdentityClaim → Bool
made_by fk c = elim c.fetch_key [ none ↦ false | some gk ↦ gk.id == fk.id ]

unfoldable pub member_from : List IdentityClaim → FetchKey → Option IdentityClaim
member_from [] fk = none
member_from (c ∷ cs) fk = if made_by fk c then some c else member_from cs fk

unfoldable pub member : ConsistentClaims → FetchKey → Option IdentityClaim
unfolding member_from
member a fk = member_from (all_claims a) fk

abbrev pub is_database : IdentityClaim → Bool
is_database c = elim c.fetch_key [ none ↦ true | some fk ↦ false ]

-- The loop over the chosen claims.
unfoldable pub contradicted_by : IdentityClaim → List IdentityClaim → Option Finding
unfolding inconsistent finding
contradicted_by c [] = none
contradicted_by c (o ∷ chosen) =
    if inconsistent c o
    then some (finding c.fetch_key (if is_database o then contradiction else dropped) precedence)
    else contradicted_by c chosen

unfoldable pub uncorroborated : IdentityClaim → List IdentityClaim → MicMap → Option Finding
unfolding corroborates finding
uncorroborated c [] mics = none
uncorroborated c (winner ∷ chosen) mics =
    if corroborates c winner mics then none else some (finding c.fetch_key dropped corroboration)

unfoldable pub rejects : IdentityClaim → List IdentityClaim → MicMap → Option Finding
unfolding contradicted_by uncorroborated
rejects c chosen mics = elim (contradicted_by c chosen) [
  | some f ↦ some f
  | none ↦ uncorroborated c chosen mics
]

abbrev pub bool_eq : Bool → Bool → Bool
bool_eq true b = b
bool_eq false b = not b

-- Whether the first claim ranks better.
unfoldable pub ranks_before : Resolution → IdentityClaim → IdentityClaim → Bool
unfolding named confirms
ranks_before res a b =
    if not (bool_eq (named a) (named b)) then named a else ltb (confirms b res) (confirms a res)

pub record Alternatives : Type 0 where
  pub count : ℕ
  pub survivors : List IdentityClaim
  pub offered : List IdentityClaim
  pub fallback : Bool
  pub not_naming : ℕ
  pub findings : List Finding

-- One claim of the answer.
unfoldable pub sort_claim :
    FetchKey → Resolution → Bool → Bool → IdentityClaim → Alternatives → Alternatives
unfolding against named finding
sort_claim fk res global confirmed c alts =
    if not global && not confirmed
    then record alts {
      not_naming = suc alts.not_naming;
      offered = if against c res then alts.offered else alts.offered ++ c ∷ [];
    }
    else if global && (not (named c) && not alts.fallback)
    then record alts { not_naming = suc alts.not_naming }
    else if against c res
    then record alts { findings = alts.findings ++ finding (some fk) dropped stated ∷ [] }
    else record alts { survivors = alts.survivors ++ c ∷ [] }

unfoldable pub sort_claims :
    FetchKey → Resolution → Bool → Bool → List IdentityClaim → Alternatives → Alternatives
unfolding sort_claim
sort_claims fk res global confirmed [] alts = alts
sort_claims fk res global confirmed (c ∷ cs) alts =
    sort_claims fk res global confirmed cs (sort_claim fk res global confirmed c alts)

-- `sent` is the identifier that the fetch key went out under.
unfoldable pub filter_alternatives : FetchKey → Identifier → Resolution → Bool → Alternatives
unfolding claims is_global named identifier_eq sort_claims
filter_alternatives fk sent res confirmed =
    let gs = claims fk res.families in
    let global = is_global sent in
    let bare : Identifier = record { type = mic_ticker; domain = ""; value = sent.value } in
    sort_claims fk res global confirmed gs (record {
      count = length gs;
      survivors = [];
      offered = [];
      fallback =
          global
          && (not (any named gs)
              && (is_mic_ticker sent.type && any (λ h. identifier_eq h bare) fk.response.filtered));
      not_naming = 0;
      findings = [];
    })
