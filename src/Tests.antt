-- ===== src/Tests.antt =====
-- Runs of the model at concrete inputs.
mod Urls
mod Sessions
mod Fixture
mod Calls
mod Passwords
mod Wallets
mod Connections
mod Transfers
mod Queries
mod Clients
mod Options
mod Programs
mod Messages
mod Answers
mod Served
mod Sent
