-- ===== src/Ohci/Frame/Found.antt =====
-- The devices and endpoints that `ohci_find_device` and `usb_ep_get` find.
use usbqemu_wheel.Common.{
  ℕ, zero, suc, ◌+◌, ◌≡◌, ◌≢◌, refl, ◌⊎◌, inl, inr, Bool, true, false, ◌&&◌, Option, ◌==◌, leb,
  field, arith, OnSome, option_any, Bool-cases, if_when, if_unless, if_both,
}
use Prim.{tt}
use usbqemu_wheel.Usb.Packet.{Token}
use usbqemu_wheel.Usb.Device.{
  Device, DeviceState, not_attached, attached_state, default_state, suspended, is_default, answers,
}
use usbqemu_wheel.Ohci.State.{Ohci, port_at}
use usbqemu_wheel.Ohci.Td.{dir_in, dir_out, direction_pid}
use usbqemu_wheel.Ohci.Service.{has_endpoint, find_from, ohci_find_device}

false_not_true : false ≢ true
false_not_true = λ e. cc

-- A device that is found is in the state DEFAULT.
abbrev pub IsFound : {D : Type 0} → ℕ × Device D → Type 0
IsFound x = x.1.state ≡ default_state

is_default-state : (st : DeviceState) → is_default st ≡ true → st ≡ default_state
unfolding is_default
is_default-state default_state e = refl
is_default-state not_attached e = absurd (false_not_true e)
is_default-state attached_state e = absurd (false_not_true e)
is_default-state suspended e = absurd (false_not_true e)

module _ {D : Type 0} where
  answers-state : (d : Device D) (addr : ℕ) → answers d addr ≡ true → d.state ≡ default_state
  unfolding answers
  answers-state d addr e = is_default-state d.state (second d.attached (is_default d.state) _ e)
    where
      second : (a b c : Bool) → (a && b && c) ≡ true → b ≡ true
      second true true c e = refl
      second true false c e = absurd (false_not_true e)
      second false b c e = absurd (false_not_true e)

  find_from-IsFound : (s : Ohci D) (addr i n : ℕ) → OnSome IsFound (find_from s addr i n)
  unfolding find_from
  find_from-IsFound s addr i zero = tt
  find_from-IsFound s addr i (suc n) =
      let more = find_from-IsFound s addr (i + 1) n in
      if_both (OnSome IsFound) _ more (
        option_any (OnSome IsFound) (port_at s i).dev _ _ more (λ d.
          elim (Bool-cases (answers d addr)) [
            | inl e ↦ if_when (OnSome IsFound) _ e (answers-state d addr e)
            | inr e ↦ if_unless (OnSome IsFound) _ e more
          ]))

  pub find_device-IsFound : (s : Ohci D) (addr : ℕ) → OnSome IsFound (ohci_find_device s addr)
  unfolding ohci_find_device
  find_device-IsFound s addr = find_from-IsFound s addr 0 s.num_ports

-- The device has the endpoint that an endpoint descriptor names: number 0, or a data endpoint in the
-- direction IN or OUT (a reserved direction has no token).
abbrev pub Served : ℕ → Type 0
Served flags = (field flags 11 2 ≢ 0) ⊎ (field flags 7 4 ≡ 0)

pub direction_pid-has_endpoint :
    (dir nr : ℕ)
    → (dir ≢ 0) ⊎ (nr ≡ 0)
    → leb nr 15 ≡ true
    → OnSome (λ pid. has_endpoint pid nr ≡ true) (direction_pid dir)
unfolding direction_pid has_endpoint
direction_pid-has_endpoint dir nr w l = if_both P (dir == dir_in) l (
    if_both P (dir == dir_out) l (elim (Bool-cases (dir == 0)) [
      | inl e ↦ if_when P _ e (zeroth w e)
      | inr e ↦ if_unless P _ e tt
    ]))
  where
    P : Option Token → Type 0
    P = OnSome (λ pid. has_endpoint pid nr ≡ true)

    zeroth : (dir ≢ 0) ⊎ (nr ≡ 0) → (dir == 0) ≡ true → (nr == 0) ≡ true
    zeroth w e = ground (arith, w, e)

pub nibble : (x : ℕ) → leb (field x 7 4) 15 ≡ true
nibble x = ground arith
