-- ===== src/Models.antt =====
-- include/cadmia/basic_model/iadevs: the atomic models that the library ships.
pub mod Literals
pub mod Counter
pub mod Accumulator
pub mod Generator
pub mod Processor
