-- ===== src/Tests.antt =====
-- Concrete runs of the theorems.
mod Table
mod Run
mod Access
mod Ingest
mod Relays
mod Scan
mod Capture
mod Links
mod Web
mod Logs
mod Token
