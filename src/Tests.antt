-- ===== src/Tests.antt =====
-- Concrete inputs of every part, and the theorems at them.
pub mod Farm
pub mod Pool
pub mod Client
pub mod Response
pub mod Getwork
pub mod Device
pub mod Json
pub mod Api
pub mod Cpu
