-- ===== src/Lib.antt =====
-- A verification library for the USB plugin: an emulated OHCI host controller with the devices that
-- hang on its root hub, for an emulator of the I/O processor.
--
-- The program's parts and how they interact. The emulated processor reads and writes the registers of
-- the host controller (src/qemu-usb/usb-ohci.cpp), which keeps a root hub of ports, runs the lists of
-- transfer descriptors in memory, and hands packets to the devices (src/qemu-usb/core.cpp). A device is a
-- class of callbacks over the state machine of its control pipe in src/qemu-usb/core.cpp; a cancelled or
-- completed packet comes back to the controller. Audio and video devices pass their samples through
-- the byte ring of src/shared/ringbuffer.cpp.
--
-- Which file models which part:
--   Common            booleans and comparisons of C, arrays as lists, slices, bits of machine words
--   RingBuffer        src/shared/ringbuffer.cpp: the record RingBuffer, one function per method
--   Usb/Packet        src/qemu-usb/qusb.h and core.cpp: USBPacket, usb_packet_setup, usb_packet_copy
--   Usb/Device        core.cpp: USBDevice as its port sees it, usb_pick_speed, usb_device_reset
--   Usb/Control       core.cpp: do_token_setup, do_token_in, do_token_out, do_parameter,
--                     usb_process_one, usb_generic_async_ctrl_complete
--   Usb/Endpoint      core.cpp: usb_process_one, usb_handle_packet, usb_packet_complete
--   Ohci/State        usb-ohci.cpp: OHCIState, ohci_intr_update, ohci_set_interrupt, start of frame
--   Ohci/Ports        usb-ohci.cpp: HcRhPortStatus, attach, detach, wakeup, and their callers in core.cpp
--   Ohci/Reset        usb-ohci.cpp: the resets of the root hub and of the controller
--   Ohci/Regs         usb-ohci.cpp: ohci_mem_read, ohci_mem_write and the setters
--   Ohci/Td           usb-ohci.cpp: a general transfer descriptor: its length, the copy of its bytes,
--                     and its writeback in ohci_service_td
--   Ohci/Dma          usb-ohci.cpp: get_dwords to ohci_put_iso_td, over the memory as a list of bytes
--   Ohci/Service      usb-ohci.cpp: ohci_service_td, ohci_find_device
--   Ohci/Iso          usb-ohci.cpp: ohci_service_iso_td
--   Ohci/Frame        usb-ohci.cpp: ohci_service_ed_list, ohci_process_lists, ohci_frame_boundary
--   Msd/State         src/usb-msd/usb-msd.cpp: MSDState, the wrappers, the sense data, the reset
--   Msd/Command       usb-msd.cpp: send_command
--   Msd/Transport     usb-msd.cpp: usb_msd_handle_data, copy_data, command_complete, send_status
--   Msd/Class         usb-msd.cpp: usb_msd_handle_control and usb_msd_cancel_io
--   Msd/Disk          what the device relies on of its file
--   Desc              src/qemu-usb/desc.cpp: the descriptors and the functions that write them
--   Desc/Parse        desc.cpp: usb_desc_parse_dev, usb_desc_parse_config
--   Desc/Device       desc.cpp: configurations and interfaces, and the endpoint tables of core.cpp
--   Desc/Requests     desc.cpp: GET_DESCRIPTOR and usb_desc_handle_control
--   Iov               src/qemu-usb/iov.cpp: vectors of buffers
--   Pad/Force         src/usb-pad/lg/lg_ff.h, lg_ff.cpp and usb-pad-ff.cpp: the values of the forces
--   Pad/Effects       src/usb-pad/usb-pad-ff.cpp: ParseFFData, its calls of the FFDevice as a list
--   Pad/Report        src/usb-pad/usb-pad.cpp: pad_copy_data, convert_wt_btn
--   Hid               src/qemu-usb/hid.cpp: the keyboard, its queue of scan codes and its reports
-- The files below each of them hold its theorems, and Tests its runs.
--
-- Conventions. A number is a natural number; a field of w bits is cut with `% 2 ^ w` where the source
-- cuts it, and a difference that may be negative is written out. A method that changes an object
-- returns the new object. A failed assertion and a fuel that runs out are `none`; the loops of the
-- ring buffer get one round more than they have bytes, and the theorems on them say that they end. A
-- device's class, its `handle_control` and the clock are parameters or fields. Debug output is left
-- out.
--
-- The loop over the descriptors of one endpoint has no bound in the source and runs on fuel: one more
-- than 131,072, the descriptors that the memory has room for, is enough for an isochronous endpoint,
-- while a general one with the packet size 0 runs for ever. The list of endpoints is cut after 32
-- links, as in the source. usb_packet_complete runs on fuel too: one round is enough where the packet
-- is the only one of its endpoint, as with this controller, which has one packet.
--
-- Not modelled: the other classes of devices (pointers,
-- microphones, cameras), what a wheel does beside its forces and reports, configuration and windows,
-- audio and video backends, the hub (which is not compiled), and the libraries under src/3rdparty.
pub mod Common
pub mod RingBuffer
pub mod Usb
pub mod Ohci
pub mod Msd
pub mod Hid
pub mod Iov
pub mod Desc
pub mod Pad
