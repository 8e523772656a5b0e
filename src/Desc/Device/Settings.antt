-- ===== src/Desc/Device/Settings.antt =====
-- The alternate settings of a device.
use usbqemu_wheel.Common.{
  ℕ, ◌<◌, ◌≡◌, sym, ap, ◌∙◌, inl, inr, Bool, true, false, Option, none, some, List, [], ◌∷◌, ◌++◌,
  ◌==◌, if◌then◌else◌, length, set, arith, Bool-cases, Option-cases, ◌&&◌, if_both, length-set,
}
use usbqemu_wheel.Desc.{DescIface, DescIfaceAssoc, DescConfig, ◌>>=◌}
use usbqemu_wheel.Desc.Fits.{All}
use usbqemu_wheel.Desc.Device.{
  Configured, max_interfaces, nth, usb_desc_ep_init, find_in, find_in_groups,
  usb_desc_find_interface, usb_desc_set_interface,
}
use usbqemu_wheel.Desc.Device.Tables.{
  HasEndpoints, OnIface, OnConfig, IsTidy, nth_inside, set-All, some_eq, bare, Tabled, Goes,
  ep_init-Goes,
}

find_in-All :
    (P : DescIface → Type 0) (is : List DescIface) (n a : ℕ) (i : DescIface)
    → All P is
    → find_in is n a ≡ some i
    → P i
unfolding find_in
find_in-All P [] n a i h e = cc
find_in-All P (j ∷ is) n a i h e =
    elim (Bool-cases (j.b_interface_number == n && j.b_alternate_setting == a)) [
      | inl t ↦
          let q : j ≡ i =
            some_eq j i (sym (ap (λ b. if b then some j else find_in is n a) t) ∙ e) in
          rw (← q) h.0
      | inr f ↦
          find_in-All P is n a i h.1 (sym (ap (λ b. if b then some j else find_in is n a) f) ∙ e)
    ]

find_in_groups-All :
    (P : DescIface → Type 0) (gs : List DescIfaceAssoc) (n a : ℕ) (i : DescIface)
    → All (λ (g : DescIfaceAssoc). All P g.ifs) gs
    → find_in_groups gs n a ≡ some i
    → P i
unfolding find_in_groups
find_in_groups-All P [] n a i h e = cc
find_in_groups-All P (g ∷ gs) n a i h e = elim (Option-cases (find_in g.ifs n a)) [
  | inl z ↦ find_in_groups-All P gs n a i h.1 (
      sym (
        ap
          (λ o. elim o as (λ o. Option DescIface) [
            | none ↦ find_in_groups gs n a
            | some j ↦ some j
          ])
          z)
      ∙ e)
  | inr (j, z) ↦ find_in-All P g.ifs n a i h.0 (
      z
      ∙ sym (
          ap
            (λ o. elim o as (λ o. Option DescIface) [
              | none ↦ find_in_groups gs n a
              | some j ↦ some j
            ])
            z)
      ∙ e)
]

found-HasEndpoints :
    (c : Option DescConfig) (dev : Configured) (n a : ℕ) (i : DescIface)
    → OnConfig c
    → usb_desc_find_interface (record dev { config = c }) n a ≡ some i
    → HasEndpoints i
unfolding usb_desc_find_interface
found-HasEndpoints none dev n a i h e = cc
found-HasEndpoints (some c) dev n a i h e = elim (Option-cases (find_in_groups c.if_groups n a)) [
  | inl z ↦ find_in-All HasEndpoints c.ifs n a i h.1 (
      sym (
        ap (λ o. elim o as (λ o. Option DescIface) [ none ↦ find_in c.ifs n a | some j ↦ some j ])
          z)
      ∙ e)
  | inr (j, z) ↦ find_in_groups-All HasEndpoints c.if_groups n a i h.0 (
      z
      ∙ sym (
          ap (λ o. elim o as (λ o. Option DescIface) [ none ↦ find_in c.ifs n a | some j ↦ some j ])
            z)
      ∙ e)
]

-- What a change of the setting leaves.
pub record Selected (dev : Configured) (index value : ℕ) (iface : DescIface) (dev' : Configured)
    : Type 0 where
  pub tidy : IsTidy dev'
  pub alts : dev'.altsetting ≡ set dev.altsetting index value
  pub ifaces : dev'.ifaces ≡ set dev.ifaces index (some iface)
  pub config : dev'.config ≡ dev.config
  pub ninterfaces : dev'.ninterfaces ≡ dev.ninterfaces
  pub addr : dev'.addr ≡ dev.addr

along : {A : Type 0} (P : A → Type 0) {x y : A} → x ≡ y → P y → P x
along P e p = rw e p

Selected-from :
    (dev : Configured) (index value : ℕ) (iface : DescIface) (d' : Configured)
    (calls : List (ℕ × ℕ × ℕ))
    → IsTidy (record dev {
      altsetting = set dev.altsetting index value;
      ifaces = set dev.ifaces index (some iface);
    })
    → Tabled
        (record dev {
          altsetting = set dev.altsetting index value;
          ifaces = set dev.ifaces index (some iface);
        })
        d'
    → Selected dev index value iface (record d' { calls = calls })
unfolding bare
Selected-from dev index value iface d' calls v t =
    let A : d'.altsetting ≡ set dev.altsetting index value =
      ap (λ (x : Configured). x.altsetting) t.same in
    let I : d'.ifaces ≡ set dev.ifaces index (some iface) =
      ap (λ (x : Configured). x.ifaces) t.same in
    let C : d'.config ≡ dev.config = ap (λ (x : Configured). x.config) t.same in
    let N : d'.ninterfaces ≡ dev.ninterfaces = ap (λ (x : Configured). x.ninterfaces) t.same in
    record {
      tidy = record {
        alts_size = ap length A ∙ v.alts_size;
        ifaces_size = ap length I ∙ v.ifaces_size;
        few = omega (arith, N, v.few);
        in_size = t.in_size;
        out_size = t.out_size;
        ifaces_whole = along (All OnIface) I v.ifaces_whole;
        config_whole = along OnConfig C v.config_whole;
      };
      alts = A;
      ifaces = I;
      config = C;
      ninterfaces = N;
      addr = ap (λ (x : Configured). x.addr) t.same;
    }

pub usb_desc_set_interface_lem :
    (dev : Configured) (index value : ℕ) (iface : DescIface)
    → IsTidy dev
    → index < max_interfaces
    → usb_desc_find_interface dev index value ≡ some iface
    → (dev' : Configured) × (usb_desc_set_interface dev index value ≡ some (true, dev'))
      × Selected dev index value iface dev'
unfolding usb_desc_set_interface Goes
usb_desc_set_interface_lem dev index value iface v h e =
    let d0 : Configured = record dev {
      altsetting = set dev.altsetting index value;
      ifaces = set dev.ifaces index (some iface);
    } in
    let tidy : IsTidy d0 = record {
      alts_size = length-set dev.altsetting index value ∙ v.alts_size;
      ifaces_size = length-set dev.ifaces index (some iface) ∙ v.ifaces_size;
      few = v.few;
      in_size = v.in_size;
      out_size = v.out_size;
      ifaces_whole =
          set-All OnIface dev.ifaces index (some iface) v.ifaces_whole
            (found-HasEndpoints dev.config dev index value iface v.config_whole e);
      config_whole = v.config_whole;
    } in
    let (old, eo) = nth_inside dev.altsetting index (omega (arith, v.alts_size)) in
    let (d', ed, t) = ep_init-Goes d0 tidy in
    let told : Configured = record d' { calls = d'.calls ++ ((index, old, value) ∷ []) } in
    (
      (if old == value then d' else told),
      ap
            (λ o. elim o as (λ o. Option (Bool × Configured)) [
              | none ↦ some (false, dev)
              | some i ↦ nth dev.altsetting index >>= λ a.
                  usb_desc_ep_init (record dev {
                    altsetting = set dev.altsetting index value;
                    ifaces = set dev.ifaces index (some i);
                  })
                  >>= λ x. some (
                    true,
                    if a == value
                        then x
                        else record x { calls = x.calls ++ ((index, a, value) ∷ []) },
                  )
            ])
            e
          ∙ ap
              (λ o. o >>= λ a. usb_desc_ep_init d0 >>= λ x. some (
                true,
                if a == value then x else record x { calls = x.calls ++ ((index, a, value) ∷ []) },
              ))
              eo
          ∙ ap
              (λ o. o >>= λ x. some (
                true,
                if old == value
                    then x
                    else record x { calls = x.calls ++ ((index, old, value) ∷ []) },
              ))
              ed,
      if_both (Selected dev index value iface) (old == value)
          (Selected-from dev index value iface d' d'.calls tidy t)
          (Selected-from dev index value iface d' (d'.calls ++ ((index, old, value) ∷ [])) tidy t),
    )
