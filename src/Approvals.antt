-- ===== src/Approvals.antt =====
-- app/routers/approvals.py: token-gated approval of drafts. The endpoints are in one child, the
-- others prove what they do.
mod Endpoints
pub mod Gate
pub mod Outcomes
pub mod Rejection
pub mod Reissue
pub mod Listing
unfoldable pub use Endpoints.*
