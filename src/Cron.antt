-- ===== src/Cron.antt =====
-- app/routers/cron.py: the sweeps that an external clock triggers.
mod Sweeps
pub mod Expiry
unfoldable pub use Sweeps.*
