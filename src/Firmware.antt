-- ===== src/Firmware.antt =====
-- Firmware images and versions: src/firmwareupdater.cpp and src/firmwarecompatibility.cpp.
pub mod Hex
pub mod Image
pub mod Memory
pub mod Compatibility
pub mod Accepted
pub mod Releases
