-- ===== src/Builder.antt =====
-- builder/: the build farm. A worker takes requests from the queue, compiles, scans and signs.
pub mod Queue
pub mod Scanner
pub mod Worker
mod Tests
