-- ===== src/Models.antt =====
-- app/models.py: the enumerations and the tables that the modelled code reads and writes.
-- A UUID is a natural number (it is only compared), a timestamp is a number of seconds, a score
-- between 0 and 1 is a number of millionths.
mod Enums
pub mod Roles
mod Tables
pub use Enums.*
pub use Tables.*
