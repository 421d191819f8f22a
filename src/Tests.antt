-- ===== src/Tests.antt =====
-- The theorems at concrete inputs: a process in a small world, one connection, and texts.
mod Fixture
mod Connecting
mod Lifecycle
mod Serving
mod Choosing
mod Hooks
mod Fetching
mod Plugins
mod Express
mod Catalogs
mod Tunnels
mod Sessions
