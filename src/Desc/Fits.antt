-- ===== src/Desc/Fits.antt =====
-- What the writers write, without the room that they have for it.
use usbqemu_wheel.Common.{
  ℕ, ◌+◌, ◌-◌, ◌≤◌, ◌<◌, ◌≡◌, refl, ap, ◌∙◌, inl, inr, Bool, true, false, Option, none, some, List,
  [], ◌∷◌, ◌++◌, ltb, ◌==◌, if◌then◌else◌, length, get_or, take, arith, Bool-cases, length-append,
  length-take, ltb_ge, lt→ltb, ltb→lt, ltb→ge, if_when, if_unless,
}
use Prim.{Unit, tt}
use usbqemu_wheel.Desc.{
  DescEndpoint, DescOther, DescIface, DescIfaceAssoc, DescConfig, usb_lo, usb_hi, ◌>>=◌, fit,
  extralen, extra_bytes, companion, usb_desc_other, usb_desc_endpoint, each, usb_desc_iface,
  usb_desc_iface_group, usb_desc_config,
}

-- A result that needs `n` bytes of room.
pub record Fits {B : Type 0} (o : Option B) (len n : ℕ) (r : B) : Type 0 where
  pub fits : n ≤ len → o ≡ some r
  pub full : len < n → o ≡ none

fit-Fits : (n len : ℕ) (bytes : List ℕ) → Fits (fit n len bytes) len n bytes
fit-Fits n len bytes = record {
  fits = λ h. ap (λ b. if b then none else some bytes) (ltb_ge len n h);
  full = λ h. ap (λ b. if b then none else some bytes) (lt→ltb len n h);
}

some-Fits : {B : Type 0} (len : ℕ) (r : B) → Fits (some r) len 0 r
some-Fits len r = record { fits = λ h. refl; full = λ h. absurd (omega arith) }

same-Fits : {B : Type 0} (len : ℕ) (r r' : B) → r ≡ r' → Fits (some r) len 0 r'
same-Fits len r r' e = record { fits = λ h. ap some e; full = λ h. absurd (omega arith) }

-- A second part in the room that the first one leaves.
bind-Fits :
    {A B : Type 0} (m : Option A) (k : A → Option B) (len n n' : ℕ) (a : A) (r : B)
    → Fits m len n a
    → Fits (k a) (len - n) n' r
    → Fits (m >>= k) len (n + n') r
bind-Fits m k len n n' a r f g = record {
  fits = λ h. ap (λ o. o >>= k) (f.fits (omega arith)) ∙ g.fits (omega arith);
  full = λ h. elim (Bool-cases (ltb len n)) [
    | inl lt ↦ ap (λ o. o >>= k) (f.full (ltb→lt len n lt))
    | inr ge ↦
        let le : n ≤ len = ltb→ge len n ge in ap (λ o. o >>= k) (f.fits le) ∙ g.full (omega arith)
  ];
}

-- A writer that writes `bytes x` where there is room for it.
abbrev pub Writes : {A : Type 0} → (A → ℕ → Option (List ℕ)) → (A → List ℕ) → A → Type 0
Writes f bytes x = (len : ℕ) → Fits (f x len) len (length (bytes x)) (bytes x)

abbrev pub All : {A : Type 0} → (A → Type 0) → List A → Type 0
All P [] = Unit
All P (x ∷ xs) = P x × All P xs

pub map-All :
    {A : Type 0} {P Q : A → Type 0} → ((x : A) → P x → Q x) → (xs : List A) → All P xs → All Q xs
map-All f [] h = tt
map-All f (x ∷ xs) h = (f x h.0, map-All f xs h.1)

abbrev pub concat_map : {A : Type 0} → (A → List ℕ) → List A → List ℕ
concat_map f [] = []
concat_map f (x ∷ xs) = f x ++ concat_map f xs

resize :
    {B : Type 0} {o : Option B} {len : ℕ} (n m : ℕ) {r : B}
    → n ≡ m
    → Fits o len n r
    → Fits o len m r
resize n m e f = record { fits = λ h. f.fits (omega arith); full = λ h. f.full (omega arith) }

each-Writes :
    {A : Type 0} (f : A → ℕ → Option (List ℕ)) (bytes : A → List ℕ) (xs : List A)
    → All (Writes f bytes) xs
    → Writes (each f) (concat_map bytes) xs
unfolding each
each-Writes f bytes [] w len = some-Fits len []
each-Writes f bytes (x ∷ xs) w len =
    let b : List ℕ = bytes x in
    let c : List ℕ = concat_map bytes xs in
    resize (length b + (length c + 0)) (length (b ++ c)) (omega (arith, length-append b c)) (
      bind-Fits (f x len) _ len (length b) (length c + 0) b (b ++ c) (w.0 len) (
        bind-Fits (each f xs (len - length b)) (λ c'. some (b ++ c')) (len - length b) (length c) 0
          c (b ++ c) (each-Writes f bytes xs w.1 (len - length b))
          (some-Fits (len - length b - length c) (b ++ c))))

-- The bytes of each descriptor.
abbrev pub other_size : DescOther → ℕ
other_size d = if d.size == 0 then get_or d.bytes 0 0 else d.size

abbrev pub other_bytes : DescOther → List ℕ
other_bytes d = take (other_size d) d.bytes

unfoldable pub endpoint_bytes : Bool → DescEndpoint → List ℕ
endpoint_bytes super ep =
    ((if ep.is_audio then 0x09 else 0x07)
      ∷ 0x05
      ∷ ep.b_endpoint_address
      ∷ ep.bm_attributes
      ∷ usb_lo ep.w_max_packet_size
      ∷ usb_hi ep.w_max_packet_size
      ∷ ep.b_interval
      ∷ [])
    ++ ((if ep.is_audio then ep.b_refresh ∷ ep.b_synch_address ∷ [] else [])
        ++ (companion super ep ++ extra_bytes ep.extra))

unfoldable pub iface_bytes : Bool → DescIface → List ℕ
unfolding endpoint_bytes
iface_bytes super i =
    (0x09 ∷ 0x04 ∷ i.b_interface_number ∷ i.b_alternate_setting ∷ i.b_num_endpoints
      ∷ i.b_interface_class ∷ i.b_interface_sub_class ∷ i.b_interface_protocol ∷ i.i_interface ∷ [])
    ++ (concat_map other_bytes i.descs ++ concat_map (endpoint_bytes super) i.eps)

unfoldable pub group_bytes : Bool → DescIfaceAssoc → List ℕ
unfolding iface_bytes
group_bytes super g =
    (0x08 ∷ 0x0b ∷ g.b_first_interface ∷ g.b_interface_count ∷ g.b_function_class
      ∷ g.b_function_sub_class ∷ g.b_function_protocol ∷ g.i_function ∷ [])
    ++ concat_map (iface_bytes super) g.ifs

-- All that hangs on a configuration, and its header with their total size.
unfoldable pub body : Bool → DescConfig → List ℕ
unfolding group_bytes iface_bytes
body super c = concat_map (group_bytes super) c.if_groups ++ concat_map (iface_bytes super) c.ifs

unfoldable pub config_bytes : Bool → DescConfig → List ℕ
unfolding body
config_bytes super c =
    let total = 0x09 + length (body super c) in
    (0x09
      ∷ 0x02
      ∷ usb_lo total
      ∷ usb_hi total
      ∷ c.b_num_interfaces
      ∷ c.b_configuration_value
      ∷ c.i_configuration
      ∷ c.bm_attributes
      ∷ c.b_max_power
      ∷ [])
    ++ body super c

-- Descriptors that are as long as they say.
abbrev pub IsWholeOther : DescOther → Type 0
IsWholeOther d = other_size d ≤ length d.bytes

abbrev pub IsWholeExtra : Option (List ℕ) → Type 0
IsWholeExtra none = Unit
IsWholeExtra (some x) = get_or x 0 0 ≤ length x

abbrev pub IsWholeIface : DescIface → Type 0
IsWholeIface i = All IsWholeOther i.descs × All (λ (e : DescEndpoint). IsWholeExtra e.extra) i.eps

abbrev pub IsWholeConfig : DescConfig → Type 0
IsWholeConfig c =
    All (λ (g : DescIfaceAssoc). All IsWholeIface g.ifs) c.if_groups × All IsWholeIface c.ifs

other-Writes : (d : DescOther) → IsWholeOther d → Writes usb_desc_other other_bytes d
unfolding usb_desc_other
other-Writes d h len =
    resize (other_size d) (length (other_bytes d))
      (omega (arith, length-take (other_size d) d.bytes))
      (fit-Fits (other_size d) len (other_bytes d))

length-extra : (x : Option (List ℕ)) → IsWholeExtra x → length (extra_bytes x) ≡ extralen x
unfolding extra_bytes extralen
length-extra none h = refl
length-extra (some x) h = omega (arith, length-take (get_or x 0 0) x)

length-audio :
    (b : Bool) (r a : ℕ) → length (if b then r ∷ a ∷ [] else []) + 0x07 ≡ (if b then 0x09 else 0x07)
length-audio true r a = refl
length-audio false r a = refl

length-companion :
    (super : Bool) (e : DescEndpoint) → length (companion super e) ≡ (if super then 0x06 else 0)
unfolding companion
length-companion true e = refl
length-companion false e = refl

length-endpoint :
    (super : Bool) (e : DescEndpoint)
    → IsWholeExtra e.extra
    → (if e.is_audio then 0x09 else 0x07) + extralen e.extra + (if super then 0x06 else 0)
      ≡ length (endpoint_bytes super e)
unfolding endpoint_bytes
length-endpoint super e h =
    let audio : List ℕ = if e.is_audio then e.b_refresh ∷ e.b_synch_address ∷ [] else [] in
    let all : length (audio ++ (companion super e ++ extra_bytes e.extra))
        ≡ length audio + (length (companion super e) + length (extra_bytes e.extra)) =
      length-append audio (companion super e ++ extra_bytes e.extra)
      ∙ ap (λ n. length audio + n) (length-append (companion super e) (extra_bytes e.extra)) in
    omega (
      arith,
      all,
      length-append audio (companion super e ++ extra_bytes e.extra),
      length-append (companion super e) (extra_bytes e.extra),
      length-audio e.is_audio e.b_refresh e.b_synch_address,
      length-companion super e,
      length-extra e.extra h,
    )

endpoint-Writes :
    (super : Bool) (e : DescEndpoint)
    → IsWholeExtra e.extra
    → Writes (usb_desc_endpoint super) (endpoint_bytes super) e
unfolding usb_desc_endpoint endpoint_bytes
endpoint-Writes super e h len =
    resize _ _ (length-endpoint super e h) (fit-Fits _ len (endpoint_bytes super e))

iface-Writes :
    (super : Bool) (i : DescIface)
    → IsWholeIface i
    → Writes (usb_desc_iface super) (iface_bytes super) i
unfolding usb_desc_iface iface_bytes
iface-Writes super i h len =
    let d : List ℕ = concat_map other_bytes i.descs in
    let e : List ℕ = concat_map (endpoint_bytes super) i.eps in
    resize (0x09 + (length d + (length e + 0))) _ (omega (arith, length-append d e)) (
      bind-Fits _ _ len 0x09 (length d + (length e + 0)) _ _ (fit-Fits 0x09 len _) (
        bind-Fits _ _ (len - 0x09) (length d) (length e + 0) d _
          (each-Writes usb_desc_other other_bytes i.descs (map-All other-Writes i.descs h.0)
            (len - 0x09))
          (bind-Fits _ _ (len - 0x09 - length d) (length e) 0 e _
            (each-Writes (usb_desc_endpoint super) (endpoint_bytes super) i.eps
              (map-All (endpoint-Writes super) i.eps h.1) (len - 0x09 - length d))
            (some-Fits (len - 0x09 - length d - length e) _))))

group-Writes :
    (super : Bool) (g : DescIfaceAssoc)
    → All IsWholeIface g.ifs
    → Writes (usb_desc_iface_group super) (group_bytes super) g
unfolding usb_desc_iface_group group_bytes
group-Writes super g h len =
    let i : List ℕ = concat_map (iface_bytes super) g.ifs in
    resize (0x08 + (length i + 0)) _ (omega arith) (
      bind-Fits _ _ len 0x08 (length i + 0) _ _ (fit-Fits 0x08 len _) (
        bind-Fits _ _ (len - 0x08) (length i) 0 i _
          (each-Writes (usb_desc_iface super) (iface_bytes super) g.ifs
            (map-All (iface-Writes super) g.ifs h) (len - 0x08))
          (some-Fits (len - 0x08 - length i) _)))

config-Writes :
    (super : Bool) (c : DescConfig)
    → IsWholeConfig c
    → Writes (usb_desc_config super) (config_bytes super) c
unfolding usb_desc_config config_bytes body
config-Writes super c h len =
    let g : List ℕ = concat_map (group_bytes super) c.if_groups in
    let i : List ℕ = concat_map (iface_bytes super) c.ifs in
    let total : 0x09 + length g + length i ≡ 0x09 + length (g ++ i) =
      omega (arith, length-append g i) in
    resize (0x09 + (length g + (length i + 0))) _ (omega (arith, length-append g i)) (
      bind-Fits _ _ len 0x09 (length g + (length i + 0)) _ _ (fit-Fits 0x09 len _) (
        bind-Fits _ _ (len - 0x09) (length g) (length i + 0) g _
          (each-Writes (usb_desc_iface_group super) (group_bytes super) c.if_groups
            (map-All (group-Writes super) c.if_groups h.0) (len - 0x09))
          (bind-Fits _ _ (len - 0x09 - length g) (length i) 0 i _
            (each-Writes (usb_desc_iface super) (iface_bytes super) c.ifs
              (map-All (iface-Writes super) c.ifs h.1) (len - 0x09 - length g))
            (same-Fits (len - 0x09 - length g - length i) _ _ (
              ap
                (λ t.
                  0x09
                  ∷ 0x02
                  ∷ usb_lo t
                  ∷ usb_hi t
                  ∷ c.b_num_interfaces
                  ∷ c.b_configuration_value
                  ∷ c.i_configuration
                  ∷ c.bm_attributes
                  ∷ c.b_max_power
                  ∷ (g ++ i))
                total)))))

-- The writer of a configuration, over parts that are as long as they say, writes the header with the total
-- size and behind it, in order, every interface group and interface with all that belongs to it, if
-- there is room for the whole; where there is less room, it fails.
pub usb_desc_config_lem :
    (super : Bool) (c : DescConfig) (len : ℕ)
    → IsWholeConfig c
    → usb_desc_config super c len
      ≡ (if ltb len (length (config_bytes super c)) then none else some (config_bytes super c))
usb_desc_config_lem super c len h =
    let w = config-Writes super c h len in
    let n : ℕ = length (config_bytes super c) in
    elim (Bool-cases (ltb len n)) [
      | inl lt ↦
          if_when (λ o. usb_desc_config super c len ≡ o) (some (config_bytes super c)) lt
            (w.full (ltb→lt len n lt))
      | inr ge ↦ if_unless (λ o. usb_desc_config super c len ≡ o) none ge (w.fits (ltb→ge len n ge))
    ]
