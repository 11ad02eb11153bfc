-- ===== src/Tests.antt =====
-- Concrete inputs: a stand-in for SHA-256, small logs, tests by evaluation and the instances of the
-- theorems.
mod Toy
mod Clock
mod Encoding
mod Chains
mod Trees
mod Membership
mod Seals
mod Ledger
mod Admission
mod Facade
mod Sidecars
mod Bundles
mod Calldata
