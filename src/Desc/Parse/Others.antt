-- ===== src/Desc/Parse/Others.antt =====
-- Class descriptors are parsed back.
use usbqemu_wheel.Common.{
  ℕ, ◌≤◌, ◌≡◌, sym, ap, ◌∙◌, true, false, ◌||◌, Option, some, List, [], ◌∷◌, ◌++◌, ◌==◌,
  if◌then◌else◌, length, get_or, arith, length-take, if_when, if_unless, if_both,
}
use mathlib.Core.List.{append-nil}
use usbqemu_wheel.Desc.{DescOther, DescIface, DescConfig}
use usbqemu_wheel.Desc.Fits.{concat_map, other_size, other_bytes, IsWholeOther}
use usbqemu_wheel.Desc.Parse.{Parsed, read_item}
use usbqemu_wheel.Desc.Parse.Rounds.{
  within, on_iface-within, get_or-front, get_or-take, take-front, one_round, concat_map-append,
  Rounds,
}

-- A class descriptor that the parser keeps.
pub record IsPlainOther (x : DescOther) : Type 0 where
  pub whole : IsWholeOther x
  pub own_size : get_or x.bytes 0 0 ≡ other_size x
  pub room : 2 ≤ other_size x
  pub kind :
      (get_or x.bytes 1 0 == 0x21 || (get_or x.bytes 1 0 == 0x24 || get_or x.bytes 1 0 == 0x25))
      ≡ true

abbrev pub add_desc : DescOther → DescIface → DescIface
add_desc x i = record i { descs = i.descs ++ (x ∷ []) }

not_kind :
    (t : ℕ)
    → (t == 0x21 || (t == 0x24 || t == 0x25)) ≡ true
    → ((t == 0x02) ≡ false) × ((t == 0x04) ≡ false) × ((t == 0x05) ≡ false)
not_kind t h = ground arith

read_item-desc :
    (d : List ℕ) (before : List DescConfig) (c : DescConfig) (i : DescIface)
    → (get_or d 1 0 == 0x21 || (get_or d 1 0 == 0x24 || get_or d 1 0 == 0x25)) ≡ true
    → read_item d (within before c i)
      ≡ some (within before c (add_desc (record { size = get_or d 0 0; bytes = d }) i), 0)
unfolding read_item
read_item-desc d before c i h =
    let t : ℕ = get_or d 1 0 in
    let P : Option (Parsed × ℕ) → Type 0 =
      λ o. o ≡ some (within before c (add_desc (record { size = get_or d 0 0; bytes = d }) i), 0) in
    if_unless P _ (not_kind t h).0 (
      if_unless P _ (not_kind t h).1 (
        if_unless P _ (not_kind t h).2 (
          if_when P _ h (
            ap
              (λ (l : List DescConfig). some (
                record { confs = l; config = some (length before); iface = some (length before) },
                0,
              ))
              (on_iface-within
                (λ i. record i {
                  descs = i.descs ++ (record { size = get_or d 0 0; bytes = d } ∷ []);
                })
                before c i)))))

unfoldable pub parsed_desc : DescOther → List ℕ → DescOther
parsed_desc x rest = record {
  size = get_or (other_bytes x ++ rest) 0 0;
  bytes = other_bytes x ++ rest;
}

unfoldable pub put_desc : DescOther → List ℕ → DescIface → DescIface
put_desc x rest i = add_desc (parsed_desc x rest) i

other_first :
    (x : DescOther) (rest : List ℕ)
    → IsPlainOther x
    → (get_or (other_bytes x) 0 0 ≡ other_size x)
      × (get_or (other_bytes x ++ rest) 0 0 ≡ other_size x)
      × (get_or (other_bytes x ++ rest) 1 0 ≡ get_or x.bytes 1 0)
      × (length (other_bytes x) ≡ other_size x)
other_first x rest h =
    let size : length (other_bytes x) ≡ other_size x =
      omega (arith, length-take (other_size x) x.bytes, h.whole) in
    let first : get_or (other_bytes x) 0 0 ≡ other_size x =
      get_or-take (other_size x) x.bytes 0 (omega (arith, h.room)) ∙ h.own_size in
    (
      first,
      get_or-front (other_bytes x) rest 0 (omega (arith, size, h.room)) ∙ first,
      get_or-front (other_bytes x) rest 1 (omega (arith, size, h.room))
          ∙ get_or-take (other_size x) x.bytes 1 (omega (arith, h.room)),
      size,
    )

pub other-Rounds :
    (before : List DescConfig) (c : DescConfig) (x : DescOther)
    → IsPlainOther x
    → Rounds (λ _. 1) other_bytes (within before c) put_desc x
unfolding Rounds put_desc parsed_desc
other-Rounds before c x h fuel pos rest i =
    let (first, front, second, size) = other_first x rest h in
    one_round fuel pos (other_bytes x) rest (within before c i) _ 0 (omega (arith, first, h.room))
      (read_item-desc (other_bytes x ++ rest) before c i
        (ap (λ t. t == 0x21 || (t == 0x24 || t == 0x25)) second ∙ h.kind))
      (omega (arith, first, size))

parsed_desc-bytes :
    (x : DescOther) (rest : List ℕ)
    → IsPlainOther x
    → other_bytes (parsed_desc x rest) ≡ other_bytes x
unfolding parsed_desc
parsed_desc-bytes x rest h =
    let (first, front, second, size) = other_first x rest h in
    let g : ℕ = get_or (other_bytes x ++ rest) 0 0 in
    let own : (if g == 0 then g else g) ≡ length (other_bytes x) =
      if_both (λ k. k ≡ length (other_bytes x)) (g == 0) {x = g} {y = g} (front ∙ sym size)
        (front ∙ sym size) in
    take-front (other_bytes x) rest _ own

pub put_desc-bytes :
    (x : DescOther) (rest : List ℕ) (i : DescIface)
    → IsPlainOther x
    → concat_map other_bytes (put_desc x rest i).descs
      ≡ concat_map other_bytes i.descs ++ other_bytes x
unfolding put_desc
put_desc-bytes x rest i h =
    concat_map-append other_bytes i.descs (parsed_desc x rest ∷ [])
    ∙ ap (λ l. concat_map other_bytes i.descs ++ l) (append-nil _ ∙ parsed_desc-bytes x rest h)
