-- ===== src/Examples.antt =====
-- Tests of the definitions and concrete instances of the theorems.
mod Cache
mod Versions
mod Evaluation
mod Helpers
mod Serving
mod Probes
mod Streams
mod Starting
mod Interleaving
mod Sessions
mod Races
