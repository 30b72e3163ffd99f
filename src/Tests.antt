-- ===== src/Tests.antt =====
-- The tests: each theorem of the development at concrete inputs.
mod Sample
mod Access
mod Handlers
mod Logins
mod Monitoring
mod Starting
mod Hooking
mod Racing
mod Running
mod Ruling
mod Launching
mod Lasting
mod Installing
