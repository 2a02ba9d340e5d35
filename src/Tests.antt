-- ===== src/Tests.antt =====
-- Runs of the definitions on concrete inputs, and the theorems at inputs that meet their hypotheses.
mod Money
mod CostHistory
mod Profit
mod Queue
mod Leases
mod Bundles
mod Detection
mod Decimal
mod Ads
mod Products
mod Revenue
mod Tax
mod Usage
mod Outbox
