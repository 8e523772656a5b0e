-- ===== src/Desc/Parse/Endpoints.antt =====
-- Endpoint descriptors are parsed back.
use usbqemu_wheel.Common.{
  ℕ, ◌+◌, ◌*◌, ◌/◌, ◌%◌, ◌≤◌, ◌<◌, ◌≡◌, ap, ◌∙◌, Bool, true, false, Option, none, some, List, [],
  ◌∷◌, ◌++◌, length, get_or, take, arith, length-take,
}
use Prim.{Unit}
use mathlib.Core.List.{append-nil}
use usbqemu_wheel.Desc.{
  DescEndpoint, DescIface, DescConfig, usb_lo, usb_hi, extralen, extra_bytes, companion,
}
use usbqemu_wheel.Desc.Fits.{concat_map, endpoint_bytes}
use usbqemu_wheel.Desc.Parse.{read_endpoint, read_item}
use usbqemu_wheel.Desc.Parse.Rounds.{
  within, on_iface-within, get_or-front, get_or-take, take-front, one_round, concat_map-append,
  Rounds,
}

-- An audio endpoint has a class descriptor behind it, the other ones have none.
abbrev pub PlainExtra : Bool → Option (List ℕ) → Type 0
PlainExtra false none = Unit
PlainExtra false (some l) = ⊥
PlainExtra true none = ⊥
PlainExtra true (some l) = (1 ≤ get_or l 0 0) × (get_or l 0 0 ≤ length l)

abbrev pub IsPlainEndpoint : DescEndpoint → Type 0
IsPlainEndpoint e = PlainExtra e.is_audio e.extra

abbrev pub add_endpoint : DescEndpoint → DescIface → DescIface
add_endpoint e i = record i { eps = i.eps ++ (e ∷ []) }

first_extra :
    (l rest : List ℕ)
    → (1 ≤ get_or l 0 0) × (get_or l 0 0 ≤ length l)
    → get_or (take (get_or l 0 0) l ++ rest) 0 0 ≡ get_or l 0 0
first_extra l rest h =
    get_or-front (take (get_or l 0 0) l) rest 0 (omega (arith, length-take (get_or l 0 0) l))
    ∙ get_or-take (get_or l 0 0) l 0 (omega arith)

read_item-endpoint :
    (a : Bool) (x : Option (List ℕ)) (e : DescEndpoint) (rest : List ℕ) (before : List DescConfig)
    (c : DescConfig) (i : DescIface)
    → PlainExtra a x
    → let d : List ℕ = endpoint_bytes false (record e { is_audio = a; extra = x }) in
      (read_item (d ++ rest) (within before c i)
        ≡ some (within before c (add_endpoint (read_endpoint (d ++ rest)) i), extralen x))
      × (0 < get_or d 0 0)
      × (get_or d 0 0 + extralen x ≡ length d)
unfolding read_item endpoint_bytes extralen extra_bytes companion
read_item-endpoint false none e rest before c i h = (
  ap
      (λ (l : List DescConfig).
        some (record { confs = l; config = some (length before); iface = some (length before) }, 0))
      (on_iface-within
        (add_endpoint (
          read_endpoint
            (endpoint_bytes false (record e { is_audio = false; extra = none }) ++ rest)))
        before c i),
  omega arith,
  omega arith,
)
read_item-endpoint false (some l) e rest before c i h = absurd h
read_item-endpoint true none e rest before c i h = absurd h
read_item-endpoint true (some l) e rest before c i h = (
  ap
        (λ (k : List DescConfig). some (
          record { confs = k; config = some (length before); iface = some (length before) },
          get_or (take (get_or l 0 0) l ++ rest) 0 0,
        ))
        (on_iface-within
          (add_endpoint (
            read_endpoint
              (endpoint_bytes false (record e { is_audio = true; extra = some l }) ++ rest)))
          before c i)
      ∙ ap
          (λ n. some (
            within before c (
                add_endpoint
                  (read_endpoint
                    (endpoint_bytes false (record e { is_audio = true; extra = some l }) ++ rest))
                  i),
            n,
          ))
          (first_extra l rest h),
  omega arith,
  omega (arith, length-take (get_or l 0 0) l),
)

unfoldable pub put_endpoint : DescEndpoint → List ℕ → DescIface → DescIface
put_endpoint e rest i = add_endpoint (read_endpoint (endpoint_bytes false e ++ rest)) i

pub endpoint-Rounds :
    (before : List DescConfig) (c : DescConfig) (e : DescEndpoint)
    → IsPlainEndpoint e
    → Rounds (λ _. 1) (endpoint_bytes false) (within before c) put_endpoint e
unfolding Rounds put_endpoint
endpoint-Rounds before c e h fuel pos rest i =
    let (r, z, n) = read_item-endpoint e.is_audio e.extra e rest before c i h in
    one_round fuel pos (endpoint_bytes false e) rest (within before c i) _ (extralen e.extra) z r n

low : (w : ℕ) → (w % 256 + 256 * (w / 256 % 256)) % 256 ≡ w % 256
low w = omega arith

high : (w : ℕ) → (w % 256 + 256 * (w / 256 % 256)) / 256 % 256 ≡ w / 256 % 256
high w = omega arith

-- The bytes of an endpoint that was read are those that it was read from.
read_endpoint-bytes :
    (a : Bool) (x : Option (List ℕ)) (e : DescEndpoint) (rest : List ℕ)
    → PlainExtra a x
    → let d : List ℕ = endpoint_bytes false (record e { is_audio = a; extra = x }) in
      endpoint_bytes false (read_endpoint (d ++ rest)) ≡ d
unfolding endpoint_bytes read_endpoint extra_bytes extralen companion
read_endpoint-bytes false none e rest h =
    ap
      (λ p.
        7
        ∷ 5
        ∷ e.b_endpoint_address
        ∷ e.bm_attributes
        ∷ p
        ∷ usb_hi (usb_lo e.w_max_packet_size + 256 * usb_hi e.w_max_packet_size)
        ∷ e.b_interval
        ∷ [])
      (low e.w_max_packet_size)
    ∙ ap
        (λ p.
          7
          ∷ 5
          ∷ e.b_endpoint_address
          ∷ e.bm_attributes
          ∷ usb_lo e.w_max_packet_size
          ∷ p
          ∷ e.b_interval
          ∷ [])
        (high e.w_max_packet_size)
read_endpoint-bytes false (some l) e rest h = absurd h
read_endpoint-bytes true none e rest h = absurd h
read_endpoint-bytes true (some l) e rest h =
    let part : List ℕ = take (get_or l 0 0) l in
    let tail = λ (lo hi : ℕ) (t : List ℕ).
      9 ∷ 5 ∷ e.b_endpoint_address ∷ e.bm_attributes ∷ lo ∷ hi ∷ e.b_interval ∷ e.b_refresh
      ∷ e.b_synch_address ∷ t in
    let w : ℕ = usb_lo e.w_max_packet_size + 256 * usb_hi e.w_max_packet_size in
    let whole : take (get_or (part ++ rest) 0 0) (part ++ rest) ≡ part =
      take-front part rest _ (first_extra l rest h ∙ omega (arith, length-take (get_or l 0 0) l)) in
    ap (λ t. tail (usb_lo w) (usb_hi w) t) whole
    ∙ ap (λ p. tail p (usb_hi w) part) (low e.w_max_packet_size)
    ∙ ap (λ p. tail (usb_lo e.w_max_packet_size) p part) (high e.w_max_packet_size)

pub put_endpoint-bytes :
    (e : DescEndpoint) (rest : List ℕ) (i : DescIface)
    → IsPlainEndpoint e
    → concat_map (endpoint_bytes false) (put_endpoint e rest i).eps
      ≡ concat_map (endpoint_bytes false) i.eps ++ endpoint_bytes false e
unfolding put_endpoint
put_endpoint-bytes e rest i h =
    concat_map-append (endpoint_bytes false) i.eps
      (read_endpoint (endpoint_bytes false e ++ rest) ∷ [])
    ∙ ap (λ l. concat_map (endpoint_bytes false) i.eps ++ l)
        (append-nil _ ∙ read_endpoint-bytes e.is_audio e.extra e rest h)
