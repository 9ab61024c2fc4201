-- ===== src/Slots.antt =====
-- app/redis_client.py: the slots for calls of language models, a sorted set of leases for each
-- organisation.
mod Semaphore
pub mod Capacity
pub mod Holding
unfoldable pub use Semaphore.*
