-- ===== src/Tests.antt =====
-- Runs of the model at concrete inputs.
mod Concat
mod Outbox
mod Codec
mod Router
mod Reports
mod Desk
mod Intake
mod Poller
mod LogRing
mod Handlers
