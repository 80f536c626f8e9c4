-- ===== src/Identity/Resolve/Candidate.antt =====
-- The candidates that a user confirms: `offeredClaims`, `findUserChoice` and `candidateOf` of
-- server/internal/identity/resolve/candidate.go, and `unresolved` of reason.go. The texts of the
-- reasons are left out, and an error is told by its cause.
pub mod Picked
use Prim.Native.String.{String}
use text.Mathlib.Text.{◌==◌ as str_eq}
use stonks.Base.{
  Bool, true, false, not, ◌&&◌, ◌||◌, Option, none, some, List, [], ◌∷◌, ◌++◌, map, if◌then◌else◌,
}
use stonks.Types.AssetClass.{AssetClass, class_eq}
use stonks.Types.Identifier.{Identifier, stable}
use stonks.Types.Instr.{Listing, ByFamily, Instr, listing_of, put_listing, identified_by}
use stonks.Market.{FetchKey, FetchOutcome}
use stonks.Identity.Resolve.Claim.{
  IdentityClaim, Resolution, append_unique, strongest, strongest_stable,
}
use stonks.Identity.Resolve.Choose.{
  Finding, ConsistentClaims, Alternatives, all_claims, made_by, filter_alternatives,
}
use stonks.Identity.Resolve.Gather.{gather_consistent_claims, confirmable}

abbrev pub is_served : FetchOutcome → Bool
is_served FetchOutcome.served = true
is_served _ = false

-- Offered claims, findings, and the fetch keys that served nothing.
abbrev pub Offered : Type 0
Offered = List IdentityClaim × List Finding × List FetchKey

-- What a served fetch key offers; it was sent under an identifier.
unfoldable pub offer_of : FetchKey → Resolution → List IdentityClaim × List Finding
unfolding filter_alternatives
offer_of fk res = elim fk.sent_id [
  | none ↦ ([], [])
  | some sent ↦
      let alts = filter_alternatives fk sent res false in
      (alts.offered ++ alts.survivors, alts.findings)
]

unfoldable pub offer_from : Resolution → List FetchKey → Offered
unfolding offer_of
offer_from res [] = ([], [], [])
offer_from res (fk ∷ fks) =
    let (cs, findings, unserved) = offer_from res fks in
    let (own, dropped) = offer_of fk res in
    if is_served fk.outcome
    then (own ++ cs, dropped ++ findings, unserved)
    else (cs, findings, fk ∷ unserved)

unfoldable pub offered_claims : Resolution → Offered
unfolding offer_from
offered_claims res = offer_from res res.fetch_keys

-- The candidate that the user confirms, by the datasource of its head and an identifier of the head.
pub record Pick : Type 0 where
  pub datasource : String
  pub identifier : Identifier

pub record UserChoice : Type 0 where
  pub claims : ConsistentClaims
  pub via : Identifier

-- The causes of ErrNoCandidate: the datasource was not asked, it served nothing, the head carries no
-- stable identifier, or no head carries the identifier.
pub data NoCandidate : Type 0 where
  not_asked unserved unstable not_offered : NoCandidate

pub data Found : Type 0 where
  chosen : UserChoice → Found
  refused : NoCandidate → Found

-- The first fetch key of the datasource.
unfoldable pub asked_of : String → List FetchKey → Option FetchKey
asked_of source [] = none
asked_of source (fk ∷ fks) = if str_eq fk.source source then some fk else asked_of source fks

abbrev pub comes_from : String → IdentityClaim → Bool
comes_from source c = elim c.fetch_key [ none ↦ false | some fk ↦ str_eq fk.source source ]

abbrev pub via_stable : ConsistentClaims → Option Identifier → Found
via_stable a none = refused unstable
via_stable a (some via) = chosen (record { claims = a; via = via })

-- The set, where its head is the one picked.
unfoldable pub choose_set : Pick → ConsistentClaims → Found
unfolding strongest_stable stable
choose_set p a =
    if stable p.identifier
    then chosen (record { claims = a; via = p.identifier })
    else via_stable a (strongest_stable a.head)

unfoldable pub pick_from : Pick → List ConsistentClaims → Found
unfolding identified_by choose_set
pick_from p [] = refused not_offered
pick_from p (a ∷ sets) =
    if not (comes_from p.datasource a.head) || not (identified_by a.head.instr p.identifier)
    then pick_from p sets
    else choose_set p a

abbrev pub pick_asked : Resolution → Pick → Option FetchKey → Found
pick_asked res p none = refused not_asked
pick_asked res p (some fk) =
    if not (is_served fk.outcome)
    then refused unserved
    else pick_from p (gather_consistent_claims res (offered_claims res).0)

unfoldable pub find_user_choice : Resolution → Pick → Found
unfolding asked_of offered_claims gather_consistent_claims pick_from
find_user_choice res p = pick_asked res p (asked_of p.datasource res.fetch_keys)

pub record Candidate : Type 0 where
  pub datasource : String
  pub attached : List String
  pub strongest : Identifier
  pub instr : Instr

unfoldable pub append_all : List Identifier → List Identifier → List Identifier
unfolding append_unique
append_all ids [] = ids
append_all ids (id ∷ more) = append_all (append_unique ids id) more

-- The listings of one member, in order of family.
unfoldable pub merge_listings : ByFamily → ByFamily → ByFamily
unfolding append_all listing_of put_listing
merge_listings out [] = out
merge_listings out ((fam, gl) ∷ ls) =
    let l = listing_of fam out in
    merge_listings
      (put_listing fam
        (record {
          identifiers = append_all l.identifiers gl.identifiers;
          primary = if str_eq l.primary "" then gl.primary else l.primary;
        })
        out)
      ls

unfoldable pub merge_members : List IdentityClaim → Instr → Instr
unfolding append_all merge_listings
merge_members [] i = i
merge_members (c ∷ cs) i = merge_members cs (record {
  class = i.class;
  identifiers = append_all i.identifiers c.instr.identifiers;
  listings = merge_listings i.listings c.instr.listings;
})

abbrev pub source_of : IdentityClaim → String
source_of c = elim c.fetch_key [ none ↦ "" | some fk ↦ fk.source ]

unfoldable pub candidate_of : ConsistentClaims → Option Candidate
unfolding strongest class_eq merge_members
candidate_of a = elim (strongest a.head) [
  | none ↦ none
  | some id ↦ some (record {
    datasource = source_of a.head;
    attached = map source_of a.rest;
    strongest = id;
    instr = merge_members (all_claims a) (record {
      class =
          if class_eq a.head.instr.class AssetClass.none
          then AssetClass.unknown
          else a.head.instr.class;
      identifiers = [];
      listings = [];
    });
  })
]

pub data ResolutionOutcome : Type 0 where
  unavailable unrecognised : ResolutionOutcome

abbrev pub is_unavailable : FetchOutcome → Bool
is_unavailable FetchOutcome.blocked = true
is_unavailable FetchOutcome.failed_temporary = true
is_unavailable FetchOutcome.failed_permanent = true
is_unavailable _ = false

unfoldable pub unresolved_from : List FetchKey → ResolutionOutcome
unresolved_from [] = unrecognised
unresolved_from (fk ∷ fks) = if is_unavailable fk.outcome then unavailable else unresolved_from fks

-- The outcome of a resolution that no claim won.
unfoldable pub unresolved : Resolution → ResolutionOutcome
unfolding unresolved_from
unresolved res = unresolved_from res.fetch_keys
