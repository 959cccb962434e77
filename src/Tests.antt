-- ===== src/Tests.antt =====
-- The theorems at concrete inputs, one file for each group of components.
mod Routing
mod RateLimits
mod Requests
mod Filters
mod Access
mod Gateway
mod Handlers
mod Streams
mod Operations
mod Server
mod Support
