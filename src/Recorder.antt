-- ===== src/Recorder.antt =====
-- The recorder (recorder/): what it writes to the database.
pub mod Store
pub mod Tables
pub mod Assignments
pub mod Apply
mod Tests
