-- ===== src/Ohci/State.antt =====
-- `OHCIState` and the constants of qemu-usb/USBinternal.h. The globals that the controller uses are
-- fields too: `clock` is what `get_clock` returns, `last_cycle` the time of the last interrupt,
-- `irqs` the number of calls of `USBirq`. A constant `1 << k` stands here as the bit number `k`.
use usbqemu_wheel.Common.{
  ℕ, ◌+◌, ◌*◌, ◌/◌, ◌%◌, ◌^◌, Bool, ◌&&◌, not, Option, none, List, ltb, ◌==◌, if◌then◌else◌, get_or,
  set, bit, clear, bit_and, bit_or,
}
use usbqemu_wheel.Usb.Device.{Device}
use usbqemu_wheel.Usb.Packet.{Packet}

-- `OHCIPort`: the port's device and its status register.
pub record Port (D : Type 0) : Type 0 where
  pub dev : Option (Device D)
  pub ctrl : ℕ

pub record Ohci (D : Type 0) : Type 0 where
  pub mem_base : ℕ
  pub num_ports : ℕ
  pub eof_timer : ℕ
  pub sof_time : ℕ
  pub ctl : ℕ
  pub status : ℕ
  pub intr_status : ℕ
  pub intr : ℕ
  pub hcca : ℕ
  pub ctrl_head : ℕ
  pub ctrl_cur : ℕ
  pub bulk_head : ℕ
  pub bulk_cur : ℕ
  pub per_cur : ℕ
  pub done : ℕ
  pub done_count : ℕ
  pub fsmps : ℕ  -- 15 bits
  pub fit : ℕ  -- 1 bit
  pub fi : ℕ  -- 14 bits
  pub frt : ℕ  -- 1 bit
  pub frame_number : ℕ
  pub pstart : ℕ
  pub lst : ℕ
  pub rhdesc_a : ℕ
  pub rhdesc_b : ℕ
  pub rhstatus : ℕ
  pub rhport : List (Port D)
  pub old_ctl : ℕ
  pub usb_packet : Packet
  pub packet_port : ℕ  -- the port whose device is `usb_packet.ep->dev`
  pub async_td : ℕ
  pub async_complete : Bool
  pub clock : ℕ
  pub last_cycle : ℕ
  pub irqs : ℕ
  pub usb_frame_time : ℕ
  pub usb_bit_time : ℕ

-- OHCI_PORT_*
abbrev pub port_ccs : ℕ
port_ccs = 0

abbrev pub port_pes : ℕ
port_pes = 1

abbrev pub port_pss : ℕ
port_pss = 2

abbrev pub port_prs : ℕ
port_prs = 4

abbrev pub port_pps : ℕ
port_pps = 8

abbrev pub port_lsda : ℕ
port_lsda = 9

abbrev pub port_csc : ℕ
port_csc = 16

abbrev pub port_pesc : ℕ
port_pesc = 17

abbrev pub port_pssc : ℕ
port_pssc = 18

abbrev pub port_prsc : ℕ
port_prsc = 20

-- CSC, PESC, PSSC, OCIC and PRSC.
abbrev pub port_wtc : ℕ
port_wtc = 0x1f0000

-- OHCI_INTR_*
abbrev pub intr_wd : ℕ
intr_wd = 1

abbrev pub intr_sf : ℕ
intr_sf = 2

abbrev pub intr_rd : ℕ
intr_rd = 3

abbrev pub intr_ue : ℕ
intr_ue = 4

abbrev pub intr_rhsc : ℕ
intr_rhsc = 6

abbrev pub intr_mie : ℕ
intr_mie = 31

-- `x & OHCI_CTL_HCFS` and its values.
abbrev pub hcfs : ℕ → ℕ
hcfs x = x / 64 % 4 * 64

abbrev pub usb_reset : ℕ
usb_reset = 0x00

abbrev pub usb_resume : ℕ
usb_resume = 0x40

abbrev pub usb_operational : ℕ
usb_operational = 0x80

abbrev pub usb_suspend : ℕ
usb_suspend = 0xc0

-- `x | (1 << k)` and `x & ~(1 << k)`
abbrev pub with_bit : ℕ → ℕ → ℕ
with_bit x k = bit_or x (2 ^ k)

abbrev pub without_bit : ℕ → ℕ → ℕ
without_bit x k = clear x (2 ^ k)

abbrev pub min_irq_interval : ℕ
min_irq_interval = 64

module _ {D : Type 0} where
  -- An enabled interrupt is pending.
  unfoldable pub level : Ohci D → Bool
  level s = bit s.intr intr_mie && not (bit_and s.intr_status s.intr == 0)

  unfoldable pub ohci_intr_update : Ohci D → Ohci D
  unfolding level
  ohci_intr_update s =
      if level s
      then (if ltb (s.last_cycle + min_irq_interval) s.clock
          then record s { irqs = s.irqs + 1; last_cycle = s.clock }
          else s)
      else s

  unfoldable pub ohci_set_interrupt : Ohci D → ℕ → Ohci D
  ohci_set_interrupt s mask =
      ohci_intr_update (record s { intr_status = bit_or s.intr_status mask })

  unfoldable pub ohci_bus_stop : Ohci D → Ohci D
  ohci_bus_stop s = record s { eof_timer = 0 }

  unfoldable pub ohci_die : Ohci D → Ohci D
  ohci_die s = ohci_bus_stop (ohci_set_interrupt s (2 ^ intr_ue))

  unfoldable pub ohci_sof : Ohci D → Ohci D
  ohci_sof s =
      ohci_set_interrupt (record s { sof_time = s.clock; eof_timer = s.usb_frame_time })
        (2 ^ intr_sf)

  unfoldable pub ohci_bus_start : Ohci D → Ohci D
  ohci_bus_start s = ohci_sof (record s { eof_timer = 0 })

  -- `ohci->rhport[i]`
  abbrev pub port_at : Ohci D → ℕ → Port D
  port_at s i = get_or s.rhport i (record { dev = none; ctrl = 0 })

  abbrev pub set_port : Ohci D → ℕ → Port D → Ohci D
  set_port s i p = record s { rhport = set s.rhport i p }
