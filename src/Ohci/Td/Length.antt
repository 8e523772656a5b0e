-- ===== src/Ohci/Td/Length.antt =====
-- The buffer of a descriptor: its length, its two parts, and what is left of it after a part.
use usbqemu_wheel.Common.{ℕ, ◌+◌, ◌-◌, ◌≤◌, ◌<◌, ◌≡◌, some, arith, ◌==◌, if◌then◌else◌}
use usbqemu_wheel.Ohci.Td.{Td, td_len, first_part, page, move_cbp, usb_buf_size}

-- A descriptor whose buffer is not empty and in order has at most 8192 bytes, the first part of
-- its buffer ends in the page in which it starts, the rest is at most a page, and the last byte
-- of the two parts is the one that the descriptor names as its end.
pub parts_cover :
    (td : Td) (n : ℕ)
    → td_len td ≡ some n
    → 0 < n
    → (n ≤ usb_buf_size)
      × (td.cbp + first_part td n ≤ page td.cbp + 0x1000)
      × (n - first_part td n ≤ 0x1000)
      × (if first_part td n == n then td.cbp + n - 1 else page td.be + (n - first_part td n) - 1)
        ≡ td.be
unfolding td_len
parts_cover td n h p = ground arith

pub rest_len :
    (td : Td) (n ret : ℕ)
    → td_len td ≡ some n
    → 0x1000 ≤ td.be
    → ret < n
    → td_len (record td { cbp = move_cbp td ret n }) ≡ some (n - ret)
unfolding td_len move_cbp
rest_len td n ret h b p = ground arith
