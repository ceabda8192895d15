-- ===== src/Config.antt =====
-- governor_config.c, in parts: the strings of modes and periods, the limits of a user, the reading
-- of the file.
pub mod Result
pub mod Period
pub mod Modes
pub mod Children
pub mod Limits
pub mod Init
mod Tests
