-- ===== src/Tests.antt =====
-- Runs of the definitions on concrete inputs, and the theorems applied at such inputs.
mod Proof
mod Circuits
mod Maps
mod Encodings
mod Runs
mod Gates
mod Der
mod Queue
mod Lists
mod IntMaps
mod Streams
mod Arena
mod Texts
mod Measurements
mod System
