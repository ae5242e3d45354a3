-- ===== src/Proxy.antt =====
-- The HTTP proxy: project2_HTTPproxy/docker-deploy/src.
pub mod Lru
pub mod Links
pub mod Nodes
pub mod Sync
pub mod Caching
pub mod Recency
pub mod Entries
pub mod Refinement
pub mod Runs
pub mod Text
pub mod Process
pub mod Freshness
pub mod Relay
pub mod Tunnel
pub mod FreshnessLaws
mod Tests
pub mod Request
pub mod Finding
pub mod RequestLaws
pub mod Response
pub mod Fetch
pub mod FetchLaws
pub mod Post
pub mod PostLaws
pub mod Handle
pub mod HandleLaws
pub mod Run
pub mod Accepting
pub mod Redirect
pub mod Redirection
