-- ===== src/Tests.antt =====
-- Concrete parameters for the interfaces, and the theorems at concrete inputs.
mod Iso
mod Memory
mod State
mod GrantLedger
mod Tenant
mod Ledger
mod Egress
mod EnginePool
mod Mediator
mod AppendLog
mod Canonical
mod Trust
mod Receipts
mod Sandbox
mod Mcp
