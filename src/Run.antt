-- ===== src/Run.antt =====
-- The runs of server/internal/run/run.go: `Start`, `background`, `execute` and `Close`, as steps of the
-- goroutines. The goroutine of the run `i` is the `i`th one started, and its channels `done` and `ready`
-- are its own. A select takes any case that is ready, and the work and the writes of the rows end as
-- they may. Findings, metrics, children and synchronous runs are left out.
pub mod Lanes
pub mod Started
pub mod Order
use Prim.Native.String.{String}
use text.Mathlib.Text.{◌==◌ as str_eq}
use stonks.Base.{ℕ, suc, Bool, true, false, ◌&&◌, Option, none, some, ◌≡◌, ◌<◌, ◌==◌, if◌then◌else◌}

pub record LaneKey : Type 0 where
  pub user : ℕ
  pub lane : String

abbrev pub lane_eq : LaneKey → LaneKey → Bool
lane_eq k l = (k.user == l.user) && str_eq k.lane l.lane

-- Where a goroutine stands: at the select on `prev`, at the select on `ready`, in `execute`, at the
-- deferred call, past close(done), and past the deferred call.
pub data Phase : Type 0 where
  waiting taking executing leaving done gone : Phase

-- A channel `ready`: nothing is sent, a handoff whose Prepare failed or not, or it is closed.
pub data Ready : Type 0 where
  empty shut : Ready
  sent : Bool → Ready

pub data RunState : Type 0 where
  pending running completed failed : RunState

pub record Runner : Type 0 where
  pub cancelled : Bool
  pub lanes : LaneKey → Option ℕ
  pub count : ℕ
  pub key : ℕ → LaneKey
  pub prev : ℕ → Option ℕ
  pub phase : ℕ → Phase
  pub ready : ℕ → Ready
  pub row : ℕ → Option RunState

abbrev pub set_at {ℓ} : {A : Type ℓ} → (ℕ → A) → ℕ → A → ℕ → A
set_at f i v k = if k == i then v else f k

abbrev pub set_lane : (LaneKey → Option ℕ) → LaneKey → Option ℕ → LaneKey → Option ℕ
set_lane lanes l v k = if lane_eq k l then v else lanes k

-- The locked part of `Start`.
unfoldable pub start : LaneKey → Runner → Option Runner
start l r =
    if r.cancelled
    then none
    else some (record {
      cancelled = false;
      lanes = set_lane r.lanes l (some r.count);
      count = suc r.count;
      key = set_at r.key r.count l;
      prev = set_at r.prev r.count (r.lanes l);
      phase = set_at r.phase r.count waiting;
      ready = set_at r.ready r.count empty;
      row = set_at r.row r.count none;
    })

abbrev pub move : ℕ → Phase → Runner → Runner
move i p r = record r { phase = set_at r.phase i p }

-- The rest of `Start`: the row and the handoff.
abbrev pub hand_off : ℕ → Bool → Runner → Runner
hand_off i bad r = record r {
  ready = set_at r.ready i (sent bad);
  row = set_at r.row i (some pending);
}

abbrev pub no_row : ℕ → Runner → Runner
no_row i r = record r { ready = set_at r.ready i shut }

abbrev pub set_row : ℕ → RunState → Runner → Runner
set_row i s r = record r { row = set_at r.row i (some s) }

abbrev pub close : Runner → Runner
close r = record r { cancelled = true }

-- The locked part of the deferred call.
abbrev pub is_own : Option ℕ → ℕ → Bool
is_own none i = false
is_own (some j) i = j == i

unfoldable pub free_lane : ℕ → Runner → Runner
free_lane i r = record r {
  phase = set_at r.phase i gone;
  lanes = if is_own (r.lanes (r.key i)) i then set_lane r.lanes (r.key i) none else r.lanes;
}

-- The channel `done` is closed.
unfoldable pub is_done : Phase → Bool
is_done done = true
is_done gone = true
is_done _ = false

abbrev pub Passed : Runner → Option ℕ → Type 0
Passed r none = Unit
Passed r (some i) = is_done (r.phase i) ≡ true

pub data Step : Runner → Runner → Type 0 where
  started : {r s : Runner} (l : LaneKey) → start l r ≡ some s → Step r s
  created :
      {r : Runner} {i : ℕ} (bad : Bool)
      → i < r.count
      → r.ready i ≡ empty
      → Step r (hand_off i bad r)
  not_created : {r : Runner} {i : ℕ} → i < r.count → r.ready i ≡ empty → Step r (no_row i r)
  closed : {r : Runner} → Step r (close r)
  -- <-prev, and <-r.ctx.Done() of the first select.
  passed :
      {r : Runner} {i : ℕ}
      → i < r.count
      → r.phase i ≡ waiting
      → Passed r (r.prev i)
      → Step r (move i taking r)
  dropped :
      {r : Runner} {i : ℕ}
      → i < r.count
      → r.phase i ≡ waiting
      → r.cancelled ≡ true
      → Step r (move i leaving r)
  -- The second select: a closed channel, <-r.ctx.Done(), and a handoff.
  unready :
      {r : Runner} {i : ℕ}
      → i < r.count
      → r.phase i ≡ taking
      → r.ready i ≡ shut
      → Step r (move i leaving r)
  stopped :
      {r : Runner} {i : ℕ}
      → i < r.count
      → r.phase i ≡ taking
      → r.cancelled ≡ true
      → Step r (move i leaving r)
  taken :
      {r : Runner} {i : ℕ} {bad : Bool}
      → i < r.count
      → r.phase i ≡ taking
      → r.ready i ≡ sent bad
      → r.cancelled ≡ false
      → Step r (move i executing r)
  -- StartRun, the ends of the work, and an end that leaves the row as it is.
  begun :
      {r : Runner} {i : ℕ}
      → i < r.count
      → r.phase i ≡ executing
      → r.row i ≡ some pending
      → Step r (set_row i running r)
  succeeded :
      {r : Runner} {i : ℕ}
      → i < r.count
      → r.phase i ≡ executing
      → r.row i ≡ some running
      → r.ready i ≡ sent false
      → Step r (move i leaving (set_row i completed r))
  failing :
      {r : Runner} {i : ℕ}
      → i < r.count
      → r.phase i ≡ executing
      → r.row i ≡ some running
      → r.cancelled ≡ false
      → Step r (move i leaving (set_row i failed r))
  left : {r : Runner} {i : ℕ} → i < r.count → r.phase i ≡ executing → Step r (move i leaving r)
  finished : {r : Runner} {i : ℕ} → i < r.count → r.phase i ≡ leaving → Step r (move i done r)
  freed : {r : Runner} {i : ℕ} → i < r.count → r.phase i ≡ done → Step r (free_lane i r)

-- A runner after `New`.
abbrev pub fresh : Runner
fresh = record {
  cancelled = false;
  lanes = λ k. none;
  count = 0;
  key = λ i. record { user = 0; lane = "" };
  prev = λ i. none;
  phase = λ i. waiting;
  ready = λ i. empty;
  row = λ i. none;
}

pub data Reached : Runner → Type 0 where
  new : Reached fresh
  next : {r s : Runner} → Reached r → Step r s → Reached s
