-- ===== src/Examples.antt =====
-- Tests of the definitions and the theorems at concrete inputs.
pub mod Platform
pub mod Texts
pub mod Jobs
pub mod Web
pub mod Data
pub mod Media
pub mod Songs
pub mod Library
