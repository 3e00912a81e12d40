-- ===== src/Bench.antt =====
-- The drivers that measure the copies: micro-benchmark_Msg/driver, micro-benchmark_Band/driver and
-- micro-benchmark_Cache_2CPU/driver.
pub mod Cache
pub mod Band
pub mod Policies
pub mod Devices
pub mod Installing
pub mod Running
pub mod Cases
pub mod Boot
pub mod Msg
