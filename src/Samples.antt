-- ===== src/Samples.antt =====
-- The theorems at concrete inputs, and runs of the definitions.
pub mod Tables
mod Hash
mod Flagged
mod Nonce
mod Strike
mod Safeguard
mod Robots
mod Bloom
mod Load
mod Codec
mod Score
mod Rate
mod Cookie
mod Classifier
mod Seqlock
mod RobotsParser
mod Triggers
mod Address
