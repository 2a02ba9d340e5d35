-- ===== src/Lib.antt =====
-- MyMeridian, a profitability dashboard for Shopify stores: a model of its profit engine and of its
-- durable work, with the theorems that make them correct.
--
-- The engine (app/engine) is pure: integer money (money.ts), cost history (cost-history.ts), the
-- costs of bundles (bundles.ts), an order's tax (tax.ts), the profit of orders and periods (profit.ts
-- over types.ts) and of products (products.ts). `computeProfitForPeriod` spreads ad spend and overhead
-- over the orders with `allocate`, computes each order and rolls them up;
-- `computeProductProfitability` pushes each order's costs down to its lines and adds them up.
--
-- Files, named for the parts:
--   Base            shared names, tests, lists, integers, keyed maps, stable sort, handing out
--                   cents, tables
--   Money           money.ts: rounding, rates, sums, `allocate`; Money/Rounding, Money/Allocate, and
--                   Money/Decimal (`parseScaled`, `toCents`, `toMicros`)
--   CostHistory     cost-history.ts; CostHistory/Lookup (the binary search), /Newest
--                   and /Timeline (normalisation), /Instants, /Between, /Divergence, /Segments
--   Orders          types.ts: the rows that the engine reads
--   Calendar        the day and month keys of profit.ts
--   AdSpend         `attributeAdSpend`; AdSpend/Conservation, AdSpend/Channels
--   Overhead        `allocateOverhead`; Overhead/Bounds
--   Profit          `computeOrderProfit`; Profit/Accounts, Profit/Refunds
--   Period          `computeProfitForPeriod`; Period/Reconcile
--   Bundles         app/engine/bundles.ts: the graph of bundles and derived timelines; Bundles/Combine,
--                   Bundles/Rollup, Bundles/Sum
--   BundleResolution  the same file: the depth-first resolution; BundleResolution/Fuel
--   Tax             app/engine/tax.ts: `allocateTaxCents`; Tax/Shares
--   TaxText         the same file: rates and amounts as texts; TaxText/Digits, TaxText/RoundTrip
--   TaxLines        the same file: the tax lines that are reported, and `addLines`
--   OrderTax        the same file: `splitOrderTax`; OrderTax/Sums, OrderTax/Reported
--   ProductLines    app/engine/products.ts: `allocateOrderToProducts`; ProductLines/Pushed
--   ProductTotals   the same file: what the lines add up to; ProductTotals/Pushed
--   ProductCohorts  the same file: `computeDownstreamValue`
--   Products        the same file: `computeProductProfitability`; Products/Costs
--   UsageMeter      app/lib/usage-meter.server.ts: rows, plans, statuses
--   UsageRecord     the same file: `recordOrderUsage`; UsageRecord/Counting, UsageRecord/Retry
--   UsageBilling    the same file: `billSoftOrderOverage`; UsageBilling/Charges, UsageBilling/Once
--   AdPlan          app/lib/ad-ingestion-plan.ts; AdPlan/Days, AdPlan/Backoff
--   BundleImpact    the same as Bundles: `bundlesAffectedBy`; BundleImpact/Walk, BundleImpact/Reach
--   BundleNames     the same: the pack markers in SKUs and titles
--   BundleDetection the same: `detectBundleCandidates`; BundleDetection/PackBounds,
--                   /Soundness, /Proposals
--   RecalcQueue     app/lib/recalc-queue.server.ts: the job table, the enqueue and the lease loop;
--                   RecalcQueue/Leases, /Eligible, /Fencing, /Steps (histories), /Enqueue, /Drain, /Retry
--   RecalcWorker    the same file: how a leased job ends, retention, and the sweep
--   Outbox          app/lib/webhooks.server.ts: the outbox of webhook deliveries; Outbox/Erasure (what
--                   webhook-processors.server.ts and customer-erasure.server.ts write on its
--                   table), /Histories, /Once, /Replay
--   Backfill        app/lib/backfill-claim.server.ts: the claim of a historical import;
--                   Backfill/Ownership, Backfill/Claims
--   ConnectorLease  app/integrations/lease.server.ts; ConnectorLease/Exclusion
--   Plans           app/lib/plans.ts: prices, and the keys of plans
--   Revenue         app/lib/revenue.ts: `summariseRevenue`, `summariseMovement`; Revenue/Charged, /Keys,
--                   /Counting, /Balance, /Totals
--   Tests           runs on concrete inputs, and the theorems at inputs that meet their hypotheses
--
-- The durable work (app/lib, app/integrations) is stateful: a table or a row is a value, a statement
-- of the database a function on it, and what other processes do between two statements of one
-- function is an argument or a step of a history. An updateMany with its where and its count is
-- `update_many` and `count_where`; a statement is atomic. A value of Prisma's error is `none` or a
-- Boolean, as the function's caller sees it. Times there are milliseconds.
--
-- Names follow the source in snake case. A number that holds whole cents, micros or units is an
-- integer (exact below 2^53, which the source relies on). A rate or a quotient is an exact fraction,
-- where the source has a double that is near it; a number that is not finite is a fraction with
-- denominator zero. Instants are milliseconds from the earliest `Date`, so they are naturals, and an
-- invalid `Date` is `none`. A JavaScript `Map` is a list of pairs in insertion order, and
-- `Array.prototype.sort` a stable insertion sort. A template key `a|b` is the pair of its parts. The
-- time-zone database behind `Intl.DateTimeFormat` is a parameter, `ZoneDay`.
--
-- Where a text is taken apart it is a list of code units (Base/Text). `Number` of a text reads what
-- spells an integer with or without a sign, and the empty text; exponents and the prefixes of other
-- bases, which no decimal column has, are read as not a number. Regular expressions are matched by
-- backtracking as the language's `exec` does (Base/Pattern). `toLowerCase`, `toUpperCase` and
-- `localeCompare` rest on the host's language data and are a parameter, `TextRules`. A rate that is
-- given as a number is the text that `String` makes of it. The days of ad ingestion are day numbers,
-- whose order is that of their texts. The usage charge is in cents; how its quotient of doubles
-- rounds down is a parameter.
--
-- Fuel: the loops of `allocate` run as many rounds as the remainder has cents, the binary search one
-- more than the timeline has entries, and the day loop of `allocateOverhead` one more than the range
-- has whole days; the theorems about them hold of these amounts. The lease loop has the source's eight
-- tries, as has the counting of an order, and a sweep as many rounds as its batch. The resolution of bundles has ten levels: at the
-- ninth below the top the depth guard stops it. The walk up the bundles has as many rounds as changed
-- variants and edges. `dayRange` has its own guard of 5,001 days, and a
-- number is printed with as many rounds as it has units, which its digits do not exceed.
--
-- A transaction of the usage meter is one step, and whether it meets a conflict that Prisma reports
-- as one to retry is an argument. Shopify's own record of charges is not modelled; a call whose
-- charge was made there and is counted on no row ends as `unclaimed`.
--
-- Not modelled: the formatting functions, the
-- minimizing of webhook payloads (an argument of the outbox), the React screens, the
-- Shopify and ad-platform clients, timers, and the database itself.
pub mod Base
pub mod Money
pub mod CostHistory
pub mod Orders
pub mod Plans
pub mod Revenue
pub mod Tax
pub mod TaxText
pub mod TaxLines
pub mod OrderTax
pub mod Calendar
pub mod AdSpend
pub mod Overhead
pub mod Profit
pub mod Period
pub mod Bundles
pub mod BundleResolution
pub mod UsageMeter
pub mod UsageRecord
pub mod UsageBilling
pub mod AdPlan
pub mod ProductLines
pub mod ProductTotals
pub mod ProductCohorts
pub mod Products
pub mod BundleImpact
pub mod BundleNames
pub mod BundleDetection
pub mod RecalcQueue
pub mod RecalcWorker
pub mod Outbox
pub mod Backfill
pub mod ConnectorLease
mod Tests
