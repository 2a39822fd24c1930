-- ===== src/Tests.antt =====
-- The theorems at concrete inputs, and runs of the code.
pub mod Fixtures
pub mod Objects
mod Requests
mod Routing
mod Naming
mod Balancing
mod Managing
mod Replies
mod Agreeing
mod Limits
mod Serving
mod Joining
