-- ===== src/Io.antt =====
-- Events, their queue and the timelines of threads: composer/io.
pub mod Stream
pub mod Timeline
pub mod Summarized
pub mod Grown
pub mod Faithful
pub mod Walk
pub mod Delivery
pub mod Progress
