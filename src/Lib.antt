-- ===== src/Lib.antt =====
-- Kampus pipeline: the decision cores of the agentic delivery pipeline (packages/pipeline-cli) and of
-- the crew's registry (packages/pipeline-crew-mcp), with what makes them correct.
--
-- Parts, and the files that model them (paths below packages/pipeline-cli/src/tools/ unless given):
--   Registry       packages/pipeline-crew-mcp/src/tracker/registry-core.ts: the leases by which peers
--                  are present and the claims that they hold. Registry/Steps is the service of
--                  registry.ts beside it: one action per operation, with the time of the clock, and
--                  `run` over a sequence of them, in any interleaving of the peers.
--   EpicLedger     epic-ledger/: the decoded ledger of an epic and its defects (Ledger), the search
--                  for dependency cycles (Graph), the floor (Validate), the gate (Gate) and the
--                  loop that re-plans an epic until the gate passes or it parks it (Loop). Gate and
--                  Loop run in the effects of Effects, over a world that is a parameter, with the
--                  GitHub capability and the re-planner as records of operations.
--   EpicLock       epic-lock/claim-resolution.ts and claim/claim-is-mine.ts: which session holds an
--                  epic, from the comments on it. EpicLock/Acquire has the decisions of `acquire`
--                  and `release` (epic-lock/github.ts) between their requests, EpicLock/World the
--                  sessions whose requests interleave, fail and meet the comments of others, and
--                  EpicLock/IsMine the verb of claim/github.ts.
--   MergeQueue     merge-queue-classify/: what became of a queued pull request.
--   OrphanHeal     orphan-heal/: which red pull requests get a heal-item.
--   Gates          class-probe/ and ship-it/preconditions.ts: the review gates that a diff needs
--                  (Gates, Gates/Scope) and the other preconditions of a merge (Gates/Merge).
--   Verdict        verdict/verdict-match.ts: the verdict on a pull request in a gate's namespace.
--   Ship           ship-it/command.ts: `resolveGate` and `evaluate`, which put Gates and Verdict
--                  together into the rows that decide a merge.
--   CpCardinality  cp-cardinality/: whether a protected change may go on.
--   Resume         failure-classifier/, resume-policy/ and drive-issue-flow/resume-cap.ts.
--   RoadmapGuard   roadmap-guard/: whether the roadmap and the milestones agree.
--   Roadmap        roadmap/roadmap.ts: the view of the roadmap, over the rows of RoadmapGuard.
--   WayfinderMap   wayfinder-map/: the map and its floor (Validate), the parser of a body (Text,
--                  Markdown), the graduation of a ticket (Graduate) and its check (Check).
--   WorktreeGuard  worktree-guard/path-resolve.ts: where a path of an agent in a worktree goes.
-- A source function `claimResource` is the definition `claim_resource`, and so on; a record has the
-- fields of its interface, and a union is a data type. Common holds what the parts share: Boolean
-- tests, lists, `Map` as a list of entries in the order of insertion, `sort` as a stable insertion
-- sort, and texts compared by their UTF-16 code units.
--
-- Times, counts and issue numbers are natural numbers. Regular expressions that the source writes out
-- are written out here as matchers, in EpicLock, Verdict and WayfinderMap/Text, where each piece has
-- one match; those of a policy, of the crash signatures and of a fork annotation that is not
-- recognized (it reads Unicode letters), `toLowerCase`, `Date.parse` and every read of GitHub are
-- parameters. Of GitHub, the steps of EpicLock/World take that a new comment has a larger id than the
-- comments before it and no earlier time. What the probes of permissions and the listings of comments
-- answer is a parameter of the steps: a probe that fails counts as "none", each resolution has its own
-- answers, and a listing of more than 100 comments is several requests. Theorems that need these
-- answers to agree say so.
--
-- Fuel: the convergence loop recurses on the ceiling plus one and cannot run out (Loop/Total); the
-- search of Graph recurses on the number of nodes plus one, and each nested visit colours one more of
-- them (Graph/Fuel); a number is printed with as many digits as its value plus one.
--
-- Not modelled: input and output (the commands, the tracker, the RPC server, processes), the decoding
-- of JSON, the guards that scan files, the evaluation harness, the documents of the plugins, and the
-- text helpers of the files above that only render or parse a body.
pub mod Common
pub mod Registry
pub mod EpicLedger
pub mod EpicLock
pub mod MergeQueue
pub mod OrphanHeal
pub mod Gates
pub mod Verdict
pub mod CpCardinality
pub mod RoadmapGuard
pub mod Roadmap
pub mod WayfinderMap
pub mod WorktreeGuard
pub mod Resume
pub mod Ship
