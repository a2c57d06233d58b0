-- ===== src/Device.antt =====
-- firmware/: the program of the cartridge's microcontroller.
pub mod Protocol
pub mod Main
pub mod Sst39sf020
pub mod Agreement
