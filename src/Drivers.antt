-- ===== src/Drivers.antt =====
-- src/drivers: the devices.
pub mod Vga
pub mod Keyboard
pub mod Pci
pub mod Rtl8139
