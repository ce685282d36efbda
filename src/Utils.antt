-- ===== src/Utils.antt =====
-- src/Utils.cpp and src/CRC32.h: dates, checksums and small conversions.
pub mod Time
pub mod Calendar
pub mod Bytes
pub mod Hex
pub mod Crc
pub mod Polynomial
pub mod Xor
mod Tests
