-- ===== src/Examples.antt =====
-- The theorems at concrete inputs.
mod Caches
mod Strings
mod Policies
mod Sessions
mod Backends
mod Denials
mod Servers
mod Tokens
mod Logs
mod Clients
mod Commands
mod Histories
mod Starts
mod Daemons
mod Overlaps
mod Lifecycles
