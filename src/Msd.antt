-- ===== src/Msd.antt =====
-- The mass storage device (usb-msd/usb-msd.cpp).
mod State
mod Command
mod Transport
mod Disk
mod Part
mod Reading
mod Transfer
mod DataIn
mod Accept
mod Writing
mod DataOut
mod Status
mod Transaction
mod Tests
mod Refusals
mod Class
