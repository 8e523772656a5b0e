-- ===== src/Ohci/Ports/Restart.antt =====
-- A port reset: the device on the port is detached, attached and reset.
use usbqemu_wheel.Common.{
  ℕ, ◌<◌, ◌≡◌, ◌≢◌, refl, ◌∙◌, ap, true, false, ◌&&◌, arith, Bool-cases, Option-cases, inl, inr,
  none, some, length, get_or, set, get_or-set_self, length-set, bit,
}
use usbqemu_wheel.Usb.Device.{
  Class, Device, DeviceState, suspended, is_not_attached, not_attached, attached_state,
  default_state, usb_pick_speed, usb_device_reset, speed_full, speed_low,
}
use usbqemu_wheel.Ohci.State.{Ohci, Port, port_at}
use usbqemu_wheel.Ohci.Ports.{
  attached_ctrl, detached_ctrl, ohci_attach, ohci_detach, ohci_async_cancel_device, on_device,
  usb_detach, usb_attach, detached_at, attached_at, attach_again, usb_port_reset, port_speedmask,
}
use usbqemu_wheel.Ohci.Ports.Hotplug.{
  notice-rhport, on_device-at, attach-some, attached_port, attach-at,
}

pick-attached : {D : Type 0} (m : ℕ) (d : Device D) → (usb_pick_speed m d).attached ≡ d.attached
unfolding usb_pick_speed
pick-attached m d = elim (Bool-cases (bit d.speedmask speed_full && bit m speed_full)) [
  | inl t ↦ rw t refl
  | inr f ↦ elim (Bool-cases (bit d.speedmask speed_low && bit m speed_low)) [
    | inl u ↦ rw (f, u) refl
    | inr g ↦ rw (f, g) refl
  ]
]

was_attached : (st : DeviceState) → st ≢ not_attached → is_not_attached st ≡ false
unfolding is_not_attached
was_attached not_attached n = absurd (n refl)
was_attached attached_state n = refl
was_attached default_state n = refl
was_attached suspended n = refl

module _ {D : Type 0} (k : Class D) where
  on_device-length :
      (s : Ohci D) (i : ℕ) (f : Device D → Device D)
      → length (on_device k s i f).rhport ≡ length s.rhport
  unfolding on_device
  on_device-length s i f = elim (Option-cases (port_at s i).dev) [
    | inl n ↦ rw (on_device, n) refl
    | inr (d, e) ↦ rw (on_device, e) (length-set s.rhport i _)
  ]

  quiet_cancel : (s : Ohci D) (i : ℕ) → s.async_td ≡ 0 → ohci_async_cancel_device k s i ≡ s
  unfolding ohci_async_cancel_device
  quiet_cancel s i q = rw q refl

  detach-rhport :
      (s : Ohci D) (i : ℕ) (d : Device D) (c : ℕ)
      → s.async_td ≡ 0
      → port_at s i ≡ record { dev = some d; ctrl = c }
      → (ohci_detach k s i).rhport
        ≡ set s.rhport i (record { dev = some d; ctrl = detached_ctrl c })
  unfolding ohci_detach detached_ctrl
  detach-rhport s i d c q e =
      rw (ohci_detach, ap (λ (p : Port D). p.dev) e, quiet_cancel s i q)
        (notice-rhport k _ _ _
          ∙ ap (λ (p : Port D). set s.rhport i (record p { ctrl = detached_ctrl p.ctrl })) e)

  detach-some :
      (s : Ohci D) (i : ℕ) (d : Device D)
      → (port_at s i).dev ≡ some d
      → d.state ≢ not_attached
      → usb_detach k s i ≡ some (detached_at k s i)
  unfolding usb_detach
  detach-some s i d e n = rw (usb_detach, e, was_attached d.state n) refl

  detach-at :
      (s : Ohci D) (i : ℕ) (d : Device D) (c : ℕ)
      → i < length s.rhport
      → s.async_td ≡ 0
      → port_at s i ≡ record { dev = some d; ctrl = c }
      → (port_at (detached_at k s i) i
          ≡ record { dev = some (record d { state = not_attached }); ctrl = detached_ctrl c })
        × (length (detached_at k s i).rhport ≡ length s.rhport)
  unfolding detached_at
  detach-at s i d c h q e =
      let none_there : Port D = record { dev = none; ctrl = 0 } in
      let t = ohci_detach k s i in
      let r = detach-rhport s i d c q e in
      let long : length t.rhport ≡ length s.rhport = ap length r ∙ length-set s.rhport i _ in
      (
        on_device-at k t i (λ (x : Device D). record x { state = not_attached }) d (detached_ctrl c)
            (omega (arith, long, h))
            (ap (λ ps. get_or ps i none_there) r ∙ get_or-set_self s.rhport i _ none_there h),
        on_device-length t i _ ∙ long,
      )

  attach-length :
      (s : Ohci D) (i : ℕ) (d : Device D)
      → i < length s.rhport
      → length (attached_at k s i d).rhport ≡ length s.rhport
  unfolding attached_at
  attach-length s i d h =
      let e = usb_pick_speed port_speedmask d in
      on_device-length (ohci_attach k s i e) i _ ∙ (attach-at k s i e h).1

  attach_again-some :
      (s : Ohci D) (i : ℕ) (d : Device D)
      → (port_at s i).dev ≡ some d
      → attach_again k s i ≡ usb_attach k s i d
  unfolding attach_again
  attach_again-some s i d e = rw (attach_again, e) refl

  device_reset_lem :
      (d : Device D)
      → d.attached ≡ true
      → usb_device_reset k d ≡ record d {
        remote_wakeup = false;
        addr = 0;
        state = default_state;
        rest = k.handle_reset d.rest;
      }
  unfolding usb_device_reset
  device_reset_lem d a = rw (usb_device_reset, a) refl

  -- With no transfer waiting, a port reset of a device that is there, and not in the state
  -- USB_STATE_NOTATTACHED, fails no assertion and leaves it on its port in the default state,
  -- with address 0, without remote wakeup, at the speed that both sides know, and with its
  -- class told first of the attachment and then of the reset; the port's register goes
  -- through a detachment and an attachment.
  pub port_reset-device :
      (s : Ohci D) (i : ℕ) (d : Device D) (c : ℕ)
      → i < length s.rhport
      → s.async_td ≡ 0
      → port_at s i ≡ record { dev = some d; ctrl = c }
      → d.attached ≡ true
      → d.state ≢ not_attached
      → let e = usb_pick_speed port_speedmask (record d { state = not_attached }) in
        (s' : Ohci D) × (usb_port_reset k s i ≡ some s')
        × (port_at s' i ≡ record {
          dev = some (record e {
            remote_wakeup = false;
            addr = 0;
            state = default_state;
            rest = k.handle_reset (k.handle_attach e.rest);
          });
          ctrl = attached_ctrl (detached_ctrl c) e.speed;
        })
  unfolding usb_port_reset
  port_reset-device s i d c h q at a n =
      let off : Device D = record d { state = not_attached } in
      let e = usb_pick_speed port_speedmask off in
      let (there, long) = detach-at s i d c h q at in
      let s1 = detached_at k s i in
      let s2 = attached_at k s1 i off in
      let h1 : i < length s1.rhport = omega (arith, long, h) in
      let e1 : Device D = record e { state = attached_state; rest = k.handle_attach e.rest } in
      let back : e1.attached ≡ true = pick-attached port_speedmask off ∙ a in
      let c1 = attached_ctrl (detached_ctrl c) e.speed in
      let attached : port_at s2 i ≡ record { dev = some e1; ctrl = c1 } =
        attached_port k s1 i off h1
        ∙ ap (λ (p : Port D). record { dev = some e1; ctrl = attached_ctrl p.ctrl e.speed })
            there in
      let again : attach_again k s1 i ≡ some s2 =
        attach_again-some s1 i off (ap (λ (p : Port D). p.dev) there)
        ∙ attach-some k s1 i off a refl in
      (
        on_device k s2 i (usb_device_reset k),
        rw (usb_port_reset, detach-some s i d (ap (λ (p : Port D). p.dev) at) n, again) refl,
        on_device-at k s2 i (usb_device_reset k) e1 c1
              (omega (arith, attach-length s1 i off h1, h1)) attached
            ∙ ap (λ (x : Device D). record { dev = some x; ctrl = c1 }) (device_reset_lem e1 back),
      )
