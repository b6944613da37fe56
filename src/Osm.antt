-- ===== src/Osm.antt =====
-- The time measurements of ex1/osm.cpp.
mod Tests
pub mod Measure
pub mod Iterations
