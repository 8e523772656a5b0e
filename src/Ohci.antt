-- ===== src/Ohci.antt =====
-- The host controller, qemu-usb/usb-ohci.cpp and qemu-usb/USBinternal.h: an OHCI 1.0 controller with
-- its root hub, over the memory of the I/O processor.
pub mod State
pub mod Ports
pub mod Reset
pub mod Regs
pub mod Td
pub mod Dma
pub mod Service
pub mod Iso
pub mod Frame
mod Tests
