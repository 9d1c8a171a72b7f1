-- ===== src/Model.antt =====
-- The data that the run, recovery and queue services share: the statuses, the rows of
-- sacm/infrastructure/db/models.py and sacm/schemas/recovery.py, the database and its surroundings.
mod Status
mod Recovery
mod Records
mod Database
unfoldable pub use Status.*
unfoldable pub use Recovery.*
unfoldable pub use Records.*
unfoldable pub use Database.*
