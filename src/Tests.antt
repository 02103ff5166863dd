-- ===== src/Tests.antt =====
-- The properties at concrete inputs, and what the inputs need.
pub mod Converter
mod Texts
mod Requests
mod Replies
mod Leases
mod Launches
mod CommandLines
mod Containers
mod LaunchRequests
mod Scopes
mod Registrations
mod Enrolled
mod Generated
mod Callers
mod Configured
