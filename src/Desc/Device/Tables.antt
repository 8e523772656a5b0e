-- ===== src/Desc/Device/Tables.antt =====
-- The endpoint tables that `usb_desc_ep_init` fills.
use usbqemu_wheel.Common.{
  ℕ, zero, suc, ◌+◌, ◌-◌, ◌%◌, ◌≤◌, ◌<◌, ◌≡◌, refl, ap, ◌∙◌, Bool, false, Option, none, some, List,
  [], ◌∷◌, ◌==◌, length, set, arith, if_both, bit, length-set,
}
use Prim.{Unit, tt}
use usbqemu_wheel.Usb.Endpoint.{control_type}
use usbqemu_wheel.Desc.{DescIface, DescIfaceAssoc, DescConfig, ◌>>=◌}
use usbqemu_wheel.Desc.Fits.{All}
use usbqemu_wheel.Desc.Device.{
  Configured, TableEntry, max_interfaces, nth, reset_table, usb_ep_init, on_ep, set_entry, init_eps,
  init_ifaces, usb_desc_ep_init,
}

-- An interface has the endpoints that it says it has.
abbrev pub HasEndpoints : DescIface → Type 0
HasEndpoints i = i.b_num_endpoints ≤ length i.eps

abbrev pub OnIface : Option DescIface → Type 0
OnIface none = Unit
OnIface (some i) = HasEndpoints i

abbrev pub OnConfig : Option DescConfig → Type 0
OnConfig none = Unit
OnConfig (some c) =
    All (λ (g : DescIfaceAssoc). All HasEndpoints g.ifs) c.if_groups × All HasEndpoints c.ifs

pub record IsTidy (dev : Configured) : Type 0 where
  pub alts_size : length dev.altsetting ≡ max_interfaces
  pub ifaces_size : length dev.ifaces ≡ max_interfaces
  pub few : dev.ninterfaces ≤ max_interfaces
  pub in_size : length dev.ep_in ≡ 15
  pub out_size : length dev.ep_out ≡ 15
  pub ifaces_whole : All OnIface dev.ifaces
  pub config_whole : OnConfig dev.config

pub some_eq : {A : Type 0} (x y : A) → some x ≡ some y → x ≡ y
some_eq x y e = cc

pub nth_inside : {A : Type 0} (xs : List A) (i : ℕ) → i < length xs → (x : A) × (nth xs i ≡ some x)
unfolding nth
nth_inside [] i h = absurd (omega arith)
nth_inside (x ∷ xs) zero h = (x, refl)
nth_inside (x ∷ xs) (suc i) h = nth_inside xs i (omega arith)

pub nth-set_self :
    {A : Type 0} (xs : List A) (i : ℕ) (v : A) → i < length xs → nth (set xs i v) i ≡ some v
unfolding nth
nth-set_self [] i v h = absurd (omega arith)
nth-set_self (x ∷ xs) zero v h = refl
nth-set_self (x ∷ xs) (suc i) v h = nth-set_self xs i v (omega arith)

nth-All :
    {A : Type 0} (P : A → Type 0) (xs : List A) (i : ℕ) (x : A) → All P xs → nth xs i ≡ some x → P x
unfolding nth
nth-All P [] i x h e = cc
nth-All P (y ∷ xs) zero x h e = let q : y ≡ x = some_eq y x e in rw (← q) h.0
nth-All P (y ∷ xs) (suc i) x h e = nth-All P xs i x h.1 e

pub set-All :
    {A : Type 0} (P : A → Type 0) (xs : List A) (i : ℕ) (v : A)
    → All P xs
    → P v
    → All P (set xs i v)
set-All P [] i v h p = tt
set-All P (x ∷ xs) zero v h p = (p, h.1)
set-All P (x ∷ xs) (suc i) v h p = (h.0, set-All P xs i v h.1 p)

-- A device without its endpoints.
unfoldable pub bare : Configured → Configured
bare dev = record dev {
  ep_ctl = record {
    endpoint = record {
      nr = 0;
      type = control_type;
      max_packet_size = 0;
      max_streams = 0;
      pipeline = false;
      halted = false;
      queue = [];
    };
    ifnum = 0;
  };
  ep_in = [];
  ep_out = [];
}

-- A result that differs from a device in the endpoints only, and has all of them.
pub record Tabled (dev dev' : Configured) : Type 0 where
  pub same : bare dev' ≡ bare dev
  pub in_size : length dev'.ep_in ≡ 15
  pub out_size : length dev'.ep_out ≡ 15

unfoldable pub Goes : Configured → Option Configured → Type 0
Goes dev o = (dev' : Configured) × (o ≡ some dev') × Tabled dev dev'

bind-Goes :
    (dev : Configured) (m : Option Configured) (k : Configured → Option Configured)
    → Goes dev m
    → ((d : Configured) → Tabled dev d → Goes dev (k d))
    → Goes dev (m >>= k)
unfolding Goes
bind-Goes dev m k (d, e, t) f = let (d', e', t') = f d t in (d', ap (λ o. o >>= k) e ∙ e', t')

on_ep-Goes :
    (dev d : Configured) (is_in : Bool) (ep : ℕ) (f : TableEntry → TableEntry)
    → Tabled dev d
    → ep < 16
    → Goes dev (on_ep is_in ep f d)
unfolding Goes on_ep bare
on_ep-Goes dev d is_in ep f t h =
    let (x, ex) = nth_inside d.ep_in (ep - 1) (omega (arith, t.in_size)) in
    let (y, ey) = nth_inside d.ep_out (ep - 1) (omega (arith, t.out_size)) in
    if_both (Goes dev) (ep == 0)
      (
        record d { ep_ctl = f d.ep_ctl },
        refl,
        record { same = t.same; in_size = t.in_size; out_size = t.out_size },
      )
      (if_both (Goes dev) is_in
        (
          record d { ep_in = set d.ep_in (ep - 1) (f x) },
          ap (λ o. o >>= λ e. some (record d { ep_in = set d.ep_in (ep - 1) (f e) })) ex,
          record {
            same = t.same;
            in_size = length-set d.ep_in (ep - 1) (f x) ∙ t.in_size;
            out_size = t.out_size;
          },
        )
        (
          record d { ep_out = set d.ep_out (ep - 1) (f y) },
          ap (λ o. o >>= λ e. some (record d { ep_out = set d.ep_out (ep - 1) (f e) })) ey,
          record {
            same = t.same;
            in_size = t.in_size;
            out_size = length-set d.ep_out (ep - 1) (f y) ∙ t.out_size;
          },
        ))

init_eps-Goes :
    (n e : ℕ) (iface : DescIface) (dev d : Configured)
    → e + n ≤ length iface.eps
    → Tabled dev d
    → Goes dev (init_eps n e iface d)
unfolding Goes init_eps
init_eps-Goes zero e iface dev d h t = (d, refl, t)
init_eps-Goes (suc n) e iface dev d h t =
    let (p, ep) = nth_inside iface.eps e (omega arith) in
    let (d', e', t') =
      bind-Goes dev
        (on_ep (bit p.b_endpoint_address 7) (p.b_endpoint_address % 16)
          (set_entry iface.b_interface_number p) d)
        (init_eps n (e + 1) iface)
        (on_ep-Goes dev d (bit p.b_endpoint_address 7) (p.b_endpoint_address % 16)
          (set_entry iface.b_interface_number p) t (omega arith))
        (λ d1 t1. init_eps-Goes n (e + 1) iface dev d1 (omega arith) t1) in
    (
      d',
      ap
            (λ o. o >>= λ q.
              on_ep (bit q.b_endpoint_address 7) (q.b_endpoint_address % 16)
                (set_entry iface.b_interface_number q) d
              >>= init_eps n (e + 1) iface)
            ep
          ∙ e',
      t',
    )

bare-ifaces : (dev d : Configured) → bare d ≡ bare dev → d.ifaces ≡ dev.ifaces
unfolding bare
bare-ifaces dev d e = ap (λ (x : Configured). x.ifaces) e

visit-Goes :
    (o : Option DescIface) (dev d : Configured) (k : Configured → Option Configured)
    → OnIface o
    → Tabled dev d
    → ((d1 : Configured) → Tabled dev d1 → Goes dev (k d1))
    → Goes dev (elim o as (λ o. Option Configured) [
      | none ↦ k d
      | some iface ↦ init_eps iface.b_num_endpoints 0 iface d >>= k
    ])
visit-Goes none dev d k w t f = f d t
visit-Goes (some iface) dev d k w t f =
    bind-Goes dev (init_eps iface.b_num_endpoints 0 iface d) k
      (init_eps-Goes iface.b_num_endpoints 0 iface dev d (omega arith) t) f

init_ifaces-Goes :
    (n i : ℕ) (dev d : Configured)
    → i + n ≤ length dev.ifaces
    → All OnIface dev.ifaces
    → Tabled dev d
    → Goes dev (init_ifaces n i d)
unfolding Goes init_ifaces
init_ifaces-Goes zero i dev d h w t = (d, refl, t)
init_ifaces-Goes (suc n) i dev d h w t =
    let (o, e) = nth_inside dev.ifaces i (omega arith) in
    let (d', e', t') =
      visit-Goes o dev d (init_ifaces n (i + 1)) (nth-All OnIface dev.ifaces i o w e) t
        (λ d1 t1. init_ifaces-Goes n (i + 1) dev d1 (omega arith) w t1) in
    let here : nth d.ifaces i ≡ some o = ap (λ l. nth l i) (bare-ifaces dev d t.same) ∙ e in
    (
      d',
      ap
            (λ r. r >>= λ o. elim o as (λ o. Option Configured) [
              | none ↦ init_ifaces n (i + 1) d
              | some iface ↦ init_eps iface.b_num_endpoints 0 iface d >>= init_ifaces n (i + 1)
            ])
            here
          ∙ e',
      t',
    )

length-reset_table : (nr : ℕ) (es : List TableEntry) → length (reset_table nr es) ≡ length es
unfolding reset_table
length-reset_table nr [] = refl
length-reset_table nr (e ∷ es) = ap suc (length-reset_table (nr + 1) es)

pub ep_init-Goes : (dev : Configured) → IsTidy dev → Goes dev (usb_desc_ep_init dev)
unfolding usb_desc_ep_init usb_ep_init bare
ep_init-Goes dev v =
    init_ifaces-Goes dev.ninterfaces 0 dev (usb_ep_init dev) (omega (arith, v.few, v.ifaces_size))
      v.ifaces_whole
      (record {
        same = refl;
        in_size = length-reset_table 1 dev.ep_in ∙ v.in_size;
        out_size = length-reset_table 1 dev.ep_out ∙ v.out_size;
      })
