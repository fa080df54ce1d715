-- ===== src/Tests.antt =====
-- Test data, runs at concrete inputs, and the theorems applied to them.
mod Data
mod Accounts
mod Storage
mod Logs
mod Bus
mod Chart
mod Client
mod Dashboard
mod CreateAdmin
mod Lifecycle
mod Page
mod Views
mod Config
mod Login
mod Connection
mod Routes
mod Access
mod Settings
mod Metrics
mod Processes
