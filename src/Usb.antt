-- ===== src/Usb.antt =====
-- The USB core, qemu-usb/core.cpp and qemu-usb/qusb.h: packets, endpoints, the control transfers of
-- a device and the queue of an endpoint.
pub mod Packet
pub mod Device
pub mod Control
pub mod Endpoint
