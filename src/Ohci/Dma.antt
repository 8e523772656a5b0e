-- ===== src/Ohci/Dma.antt =====
-- The controller's accesses to the memory of the I/O processor: `get_dwords` to `ohci_put_hcca`.
pub mod Memory
use usbqemu_wheel.Common.{
  ℕ, zero, suc, ◌+◌, Bool, true, false, Option, none, some, List, [], ◌∷◌, leb, if◌then◌else◌, take,
  drop, write_at, le_bytes, le_value, get_or,
}
use usbqemu_wheel.Usb.Device.{Class}
use usbqemu_wheel.Ohci.State.{Ohci}
use usbqemu_wheel.Ohci.Reset.{ohci_soft_reset}
use usbqemu_wheel.Ohci.Td.{Ed, Td, memory_end}

-- The controller, the memory, and `ohci->usb_buf`.
pub record Host (D : Type 0) : Type 0 where
  pub ohci : Ohci D
  pub ram : List ℕ
  pub usb_buf : List ℕ

-- `struct ohci_iso_td`
pub record IsoTd : Type 0 where
  pub flags : ℕ
  pub bp : ℕ
  pub next : ℕ
  pub be : ℕ
  pub offset : List ℕ

-- What an access gives, and the controller afterwards.
pub record Access (D A : Type 0) : Type 0 where
  pub host : Host D
  pub result : A

module _ {D : Type 0} (k : Class D) where
  -- An address that `cpu_physical_memory_rw` refuses resets the controller.
  unfoldable pub refuse : {A : Type 0} → Host D → A → Access D A
  refuse h a = record { host = record h { ohci = ohci_soft_reset k h.ohci }; result = a }

  -- `get_dwords` and `get_words`, with the size of one.
  unfoldable pub get : ℕ → Host D → ℕ → ℕ → Access D (Option (List ℕ))
  unfolding refuse
  get size h addr zero = record { host = h; result = some [] }
  get size h addr (suc n) =
      let rest = get size h (addr + size) n in
      if leb memory_end (addr + size) then refuse h none else record rest {
        result = elim rest.result [
          | none ↦ none
          | some xs ↦ some (le_value (take size (drop addr h.ram)) ∷ xs)
        ];
      }

  -- `put_dwords` and `put_words`
  unfoldable pub put : ℕ → Host D → ℕ → List ℕ → Access D Bool
  unfolding refuse
  put size h addr [] = record { host = h; result = true }
  put size h addr (x ∷ xs) =
      let rest =
        put size (record h { ram = write_at h.ram addr (le_bytes size x) }) (addr + size) xs in
      if leb memory_end (addr + size) then refuse h false else rest

  -- `ohci_read_ed`
  unfoldable pub ohci_read_ed : Host D → ℕ → Access D (Option Ed)
  unfolding get
  ohci_read_ed h addr =
      let r = get 4 h addr 4 in
      record {
        host = r.host;
        result = elim r.result [
          | none ↦ none
          | some l ↦ some (record {
            flags = get_or l 0 0;
            tail = get_or l 1 0;
            head = get_or l 2 0;
            next = get_or l 3 0;
          })
        ];
      }

  -- `ohci_read_td`
  unfoldable pub ohci_read_td : Host D → ℕ → Access D (Option Td)
  unfolding get
  ohci_read_td h addr =
      let r = get 4 h addr 4 in
      record {
        host = r.host;
        result = elim r.result [
          | none ↦ none
          | some l ↦ some (record {
            flags = get_or l 0 0;
            cbp = get_or l 1 0;
            next = get_or l 2 0;
            be = get_or l 3 0;
          })
        ];
      }

  -- `ohci_read_iso_td`
  unfoldable pub ohci_read_iso_td : Host D → ℕ → Access D (Option IsoTd)
  unfolding get
  ohci_read_iso_td h addr =
      let r = get 4 h addr 4 in
      let w = get 2 r.host (addr + 16) 8 in
      elim r.result [
        | none ↦ record { host = r.host; result = none }
        | some l ↦ record {
          host = w.host;
          result = elim w.result [
            | none ↦ none
            | some offset ↦ some (record {
              flags = get_or l 0 0;
              bp = get_or l 1 0;
              next = get_or l 2 0;
              be = get_or l 3 0;
              offset = offset;
            })
          ];
        }
      ]

  -- `ohci_put_ed`: the head alone is written back.
  unfoldable pub ohci_put_ed : Host D → ℕ → Ed → Access D Bool
  unfolding put
  ohci_put_ed h addr ed = put 4 h (addr + 8) (ed.head ∷ [])

  -- `ohci_put_td`
  unfoldable pub ohci_put_td : Host D → ℕ → Td → Access D Bool
  unfolding put
  ohci_put_td h addr td = put 4 h addr (td.flags ∷ td.cbp ∷ td.next ∷ td.be ∷ [])

  -- `ohci_put_iso_td`
  unfoldable pub ohci_put_iso_td : Host D → ℕ → IsoTd → Access D Bool
  unfolding put
  ohci_put_iso_td h addr td =
      let r = put 4 h addr (td.flags ∷ td.bp ∷ td.next ∷ td.be ∷ []) in
      if r.result then put 2 r.host (addr + 16) td.offset else r
