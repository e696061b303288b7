-- ===== src/Tests.antt =====
-- Runs of the model on concrete inputs, one for each theorem that has conditions.
mod Fixtures
mod Enrollment
mod Gateways
mod Sockets
mod Wire
mod Monitors
mod Servers
mod Reports
mod Bridges
mod Files
