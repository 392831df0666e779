-- ===== src/Tests.antt =====
-- The theorems at concrete inputs.
mod Responses
mod Requests
mod Given
mod Servers
mod Configs
mod Clients
mod Writes
mod Addresses
mod Plugins
mod Deliveries
mod Starved
mod Working
