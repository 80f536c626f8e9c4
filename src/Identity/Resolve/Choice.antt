-- ===== src/Identity/Resolve/Choice.antt =====
-- `choose` of server/internal/identity/resolve/choose.go: the claims that are chosen among those of
-- every answer. The member of the user's choice that a fetch key made is its head where the key made
-- the head.
pub mod Chosen
use stonks.Base.{
  Bool, true, false, Option, none, some, List, [], ◌∷◌, ◌++◌, filter_b, ◌||◌, ◌&&◌, if◌then◌else◌,
}
use stonks.Market.{FetchKey}
use stonks.Identity.Resolve.Claim.{IdentityClaim, Resolution, against, inconsistent, is_some}
use stonks.Identity.Resolve.Choose.{ConsistentClaims, made_by, member, rejects}
use stonks.Identity.Resolve.Verdict.{ClaimVerdict, best_claim}
use stonks.Identity.Resolve.Gather.{gather_consistent_claims, confirmable}

-- The verdict so far, the chosen claims and the offered ones.
pub record Choosing : Type 0 where
  pub verdict : ClaimVerdict
  pub chosen : List IdentityClaim
  pub offered : List IdentityClaim

abbrev pub or_first : Option IdentityClaim → IdentityClaim → Option IdentityClaim
or_first none c = some c
or_first (some w) c = some w

unfoldable pub attach : IdentityClaim → Choosing → Choosing
attach c s = record s {
  verdict = record s.verdict { attached = s.verdict.attached ++ c ∷ [] };
  chosen = s.chosen ++ c ∷ [];
}

-- A member of the user's choice below its head.
unfoldable pub attach_member : Resolution → IdentityClaim → Choosing → Choosing
unfolding rejects attach
attach_member res m s = elim (rejects m s.chosen res.mics) [
  | some f ↦ record s { verdict = record s.verdict { findings = s.verdict.findings ++ f ∷ [] } }
  | none ↦ attach m s
]

-- The answer of a datasource with no member, and its best claim.
unfoldable pub attach_found : Bool → Option IdentityClaim → Choosing → Choosing
unfolding attach
attach_found by_user none s = s
attach_found true (some c) s = s
attach_found false (some c) s =
    let attached = attach c s in
    record attached { verdict = record attached.verdict { winner = or_first s.verdict.winner c } }

unfoldable pub attach_best : Resolution → Bool → FetchKey → Choosing → Choosing
unfolding best_claim attach_found
attach_best res by_user fk s =
    let (v, best, more) = best_claim fk res s.chosen s.verdict in
    attach_found by_user best
      (record { verdict = v; chosen = s.chosen; offered = s.offered ++ more })

unfoldable pub choose_key : Resolution → Option ConsistentClaims → FetchKey → Choosing → Choosing
unfolding member attach_member attach_best
choose_key res none fk s = attach_best res false fk s
choose_key res (some a) fk s = elim (member a fk) [
  | none ↦ attach_best res true fk s
  | some m ↦ if made_by fk a.head then s else attach_member res m s
]

unfoldable pub choose_keys :
    Resolution → Option ConsistentClaims → List FetchKey → Choosing → Choosing
unfolding choose_key
choose_keys res by_user [] s = s
choose_keys res by_user (fk ∷ fks) s = choose_keys res by_user fks (choose_key res by_user fk s)

abbrev pub to_list : Option IdentityClaim → List IdentityClaim
to_list none = []
to_list (some c) = c ∷ []

abbrev pub first_verdict : Option IdentityClaim → Bool → ClaimVerdict
first_verdict known confirmed = record {
  winner = known;
  confirmed = confirmed;
  refused = false;
  attached = [];
  findings = [];
  counts = λ s. 0;
  not_naming = λ s. 0;
  offered = [];
}

-- Whether the head of the user's choice fails a check.
unfoldable pub refuses : Resolution → Option IdentityClaim → IdentityClaim → Bool
unfolding against inconsistent
refuses res known head =
    against head res || elim known [ none ↦ false | some k ↦ inconsistent head k ]

-- The claims chosen before the loop over the fetch keys.
unfoldable pub start_choice : Option IdentityClaim → Option ConsistentClaims → Choosing
unfolding attach
start_choice known none = record {
  verdict = first_verdict known false;
  chosen = to_list known;
  offered = [];
}
start_choice known (some a) =
    let s : Choosing = record {
      verdict = record (first_verdict known true) { winner = or_first known a.head };
      chosen = to_list known;
      offered = [];
    } in
    attach a.head s

unfoldable pub refused_by : Resolution → Option IdentityClaim → Option ConsistentClaims → Bool
unfolding refuses
refused_by res known none = false
refused_by res known (some a) = refuses res known a.head

abbrev pub is_confirmation : Option ConsistentClaims → Bool
is_confirmation none = false
is_confirmation (some a) = true

unfoldable pub choose : Resolution → Option IdentityClaim → Option ConsistentClaims → ClaimVerdict
unfolding refused_by start_choice choose_keys gather_consistent_claims confirmable
choose res known by_user =
    let s = choose_keys res by_user res.fetch_keys (start_choice known by_user) in
    if refused_by res known by_user
    then record (first_verdict known (is_confirmation by_user)) { refused = true }
    else record s.verdict {
      offered = filter_b confirmable (gather_consistent_claims res s.offered);
    }
