-- ===== src/Lib.antt =====
-- Verification of the stonks server.
--
-- The server tracks the instruments that its users hold. A ticker names different instruments on
-- different days, and server/internal/identity/tickervalidity derives from the answers of
-- datasources and from administrators' attestations which instrument a ticker names on each day.
-- The derivation is a chain: the rows of a ticker (Facts) lose the days that later answers of their
-- source reach (Current), each day of what is left gets a winner (Winners), the winners between two
-- edges become intervals (Segments), and Derive joins the chain and finds the missed events. The
-- intervals are stored, and other parts read them (Intervals, Load). server/internal/corpact reads
-- the corporate actions of a market's source, attributes them by those intervals to instruments,
-- restates quantities by them, and compares them with the splits that statements state.
-- server/internal/identity/group joins a user's keys without an instrument by their identifiers.
-- server/internal/identity/resolve decides which instrument the answers of datasources name for a
-- key: the listings of an answer become claims, the claims of each answer that agree with the key and
-- with those chosen above them are ranked, and the best is chosen, or sets of consistent claims are
-- offered to the user. server/internal/identity/coverage reports the days of a ticker's transactions
-- that no confirmed interval holds, while a key holds a position. server/internal/stmt reads the
-- statement that a broker's user sends: it checks its rows and splits, and states the keys that the
-- others resolve.
--
-- Files and code:
--   Base: tests on numbers, lists, stable insertion sort, increasing lists of bounds; Base/In, Compare
--     and Sorted: membership, the orders that cmp.Compare and cmp.Or make, and sorted lists as sets.
--   Types/Time, Types/Period: server/internal/types/period.go. A time is its nanoseconds from a UTC
--     midnight before every time of the program, so time.Time comparisons are comparisons of
--     numbers, AddDate of one day is an addition of a day's length, and Day rounds down to a day.
--   Types/AssetClass, Types/Identifier, Types/Ratio, Types/MarketTicker, Types/Instr:
--     asset_class.go, identifier.go with trait.go, ratio.go, market_ticker.go and instr.go of
--     server/internal/types.
--   Mic, Currency, Market: server/internal/mic/mic.go, server/internal/currency/currency.go, and the
--     answers of server/internal/market/identity.go with the fetch key of fetch.go.
--   TickerValidity/Facts: the types of server/internal/identity/tickervalidity/tickervalidity.go.
--   TickerValidity/Current, Winners, Segments, Derive: the functions of
--     server/internal/identity/tickervalidity/derive.go, in the order of the chain.
--   TickerValidity/Intervals, Load: gaps.go and the loading of store.go of the same package.
--   Identity/Group: server/internal/identity/group/group.go.
--   Identity/Coverage: server/internal/identity/coverage/coverage.go; gaps and holdings, and in
--     Identity/Coverage/Alerts Unconfirmed with what it calls.
--   Identity/Resolve/Claim, Claims: claim.go of server/internal/identity/resolve; a claim against
--     the key and against other claims, and the claims of one answer.
--   Identity/Resolve/Choose, Verdict, Gather, Choice: choose.go of the same package; the findings and
--     the alternatives of an answer, bestClaim, gatherConsistentClaims and choose.
--   Identity/Resolve/Merge: merge.go of the same package, mergeConflict and refuse, and heldBy of
--     target.go.
--   Identity/Resolve/Candidate: candidate.go and reason.go of the same package.
--   Corpact, Corpact/Decided, Corpact/Days, Corpact/Stored: decision.go and read.go of
--     server/internal/corpact.
--   Corpact/Calendar, Corpact/Calendar/Build: calendar.go of the same package; Factor and Calendars.
--   Corpact/Splits, Corpact/Covered: split.go of the same package; unmatchedSplits, and coverage
--     with coveredSplits.
--   Run: run.go of server/internal/run; Start, background, execute and Close as steps of the
--     goroutines of a runner.
--   Stmt: the messages of proto/stmt/v1/stmt.proto and proto/type/v1/type.proto that a statement is sent
--     in, as Go reads them, and key of server/internal/stmt/stmt.go.
--   Stmt/Dates, Stmt/Keys: parseDate, and keyOf with keyFor, of server/internal/stmt/validate.go.
--   Stmt/Intern: canon and intern of stmt.go. Stmt/Validate: validate and split of validate.go, and
--     Create of stmt.go up to the start of the run of the statement. Stmt/Work: resolve of stmt.go and
--     the rows of write of server/internal/stmt/write.go.
--   Examples: concrete rows, and each theorem at them.
--
-- How state is modelled: a loop is a recursive function whose arguments are the variables that it
-- changes. An identifier (uuid) is the number that its bytes spell, so that bytes.Compare is the
-- order of numbers. A precedence (int32) is counted from the least one. slices.SortFunc and
-- slices.SortStableFunc are stable insertion sorts. A map is a function, or a list of entries in
-- the order of their insertion; Go's random order over a map is taken to be that order. The
-- generated queries are records of functions, which return none where a query fails. Decimals of
-- github.com/shopspring/decimal are a type and operations that are a parameter, and a big.Rat is a
-- fraction that is not reduced. Claims and fetch keys, which the code tells apart by their addresses,
-- are told apart by their places and their ids, and the texts of findings, reasons and errors are
-- left out. Strings are compared and changed in case as ASCII. The stated evidence of an assertion
-- (Stated), which derive does not read, is left out.
--
-- Bounds: the loop of `under` runs on fuel for five rounds, since no chain of parents holds more
-- than four classes. The loop of `find` runs for one round more than the number of its key, since
-- a parent is never after its child. The loop of `root` in claim.go runs for one round more than
-- the unions of its answer, since a tree is at most as high as the unions that made it. Every
-- other loop is recursion on a list.
--
-- Not modelled: the dated resolution and the writes of the resolution, the queries of the run of a
-- statement, the children, the sweep and the kinds of runs, the market integrations, the writes of
-- the database, the services, the accounts, the platform, the commands, the messages and the client.
-- Most of these are sequences of queries or of calls to external services.
pub mod Base
pub mod Types
pub mod TickerValidity
pub mod Identity
pub mod Mic
pub mod Currency
pub mod Market
pub mod Corpact
pub mod Run
pub mod Stmt
pub mod Examples
