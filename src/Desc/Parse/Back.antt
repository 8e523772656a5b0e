-- ===== src/Desc/Parse/Back.antt =====
-- A configuration that was written is parsed back.
use usbqemu_wheel.Common.{
  ℕ, suc, ◌+◌, ◌-◌, ◌≤◌, ◌≡◌, refl, sym, ap, ◌∙◌, false, Option, none, some, List, [], ◌∷◌, ◌++◌,
  length, arith, length-append, length-take,
}
use mathlib.Core.List.{append_assoc, append-nil}
use usbqemu_wheel.Desc.{DescIface, DescIfaceAssoc, DescConfig, DescDevice, usb_lo, usb_hi}
use usbqemu_wheel.Desc.Fits.{
  All, group_bytes, concat_map, other_size, other_bytes, endpoint_bytes, iface_bytes, config_bytes,
  body,
}
use usbqemu_wheel.Desc.Parse.{
  Parsed, read_config, read_iface, read_item, parse_loop, usb_desc_parse_config,
}
use usbqemu_wheel.Desc.Parse.Rounds.{
  within, at-append, one_round, concat_map-append, all_rounds, puts, Rounds, reads_all, puts-keep,
  puts-bytes, all_rounds-le,
}
use usbqemu_wheel.Desc.Parse.Others.{IsPlainOther, put_desc, other-Rounds, put_desc-bytes}
use usbqemu_wheel.Desc.Parse.Endpoints.{
  IsPlainEndpoint, put_endpoint, endpoint-Rounds, put_endpoint-bytes,
}

-- An interface that the parser keeps.
abbrev pub IsPlainIface : DescIface → Type 0
IsPlainIface i = All IsPlainOther i.descs × All IsPlainEndpoint i.eps

-- The loop inside of a configuration.
between : List DescConfig → DescConfig × Option ℕ → Parsed
between before (c, k) = record {
  confs = before ++ (c ∷ []);
  config = some (length before);
  iface = k;
}

part_rounds : DescIface → ℕ
part_rounds i = all_rounds (λ _. 1) i.descs + all_rounds (λ _. 1) i.eps

part_bytes : DescIface → List ℕ
part_bytes i = concat_map other_bytes i.descs ++ concat_map (endpoint_bytes false) i.eps

read_parts : DescIface → List ℕ → DescIface → DescIface
read_parts i rest i0 =
    puts (endpoint_bytes false) put_endpoint i.eps rest
      (puts other_bytes put_desc i.descs (concat_map (endpoint_bytes false) i.eps ++ rest) i0)

parts_loop :
    (before : List DescConfig) (c : DescConfig) (i : DescIface) (fuel pos : ℕ) (rest : List ℕ)
    (i0 : DescIface)
    → IsPlainIface i
    → parse_loop (part_rounds i + fuel) pos (part_bytes i ++ rest) (within before c i0)
      ≡ parse_loop fuel (pos + length (part_bytes i)) rest (within before c (read_parts i rest i0))
unfolding part_rounds part_bytes read_parts
parts_loop before c i fuel pos rest i0 h =
    let d : List ℕ = concat_map other_bytes i.descs in
    let e : List ℕ = concat_map (endpoint_bytes false) i.eps in
    let nd : ℕ = all_rounds (λ _. 1) i.descs in
    let ne : ℕ = all_rounds (λ _. 1) i.eps in
    ap (λ f. parse_loop f pos ((d ++ e) ++ rest) (within before c i0)) {x = nd + ne + fuel}
      {y = nd + (ne + fuel)} (omega arith)
    ∙ ap (λ l. parse_loop (nd + (ne + fuel)) pos l (within before c i0)) (append_assoc d e rest)
    ∙ reads_all (λ _. 1) other_bytes IsPlainOther (within before c) put_desc (other-Rounds before c)
        i.descs (ne + fuel) pos (e ++ rest) i0 h.0
    ∙ reads_all (λ _. 1) (endpoint_bytes false) IsPlainEndpoint (within before c) put_endpoint
        (endpoint-Rounds before c) i.eps fuel (pos + length d) rest _ h.1
    ∙ ap (λ q. parse_loop fuel q rest (within before c (read_parts i rest i0)))
        (omega (arith, length-append d e))

header : DescIface → List ℕ
header i =
    0x09 ∷ 0x04 ∷ i.b_interface_number ∷ i.b_alternate_setting ∷ i.b_num_endpoints
    ∷ i.b_interface_class ∷ i.b_interface_sub_class ∷ i.b_interface_protocol ∷ i.i_interface ∷ []

-- The parts that were read have the bytes that they were read from.
parts-bytes :
    (i : DescIface) (rest : List ℕ) (i0 : DescIface)
    → IsPlainIface i
    → i0.descs ≡ []
    → i0.eps ≡ []
    → iface_bytes false (read_parts i rest i0) ≡ header i0 ++ part_bytes i
unfolding read_parts iface_bytes put_desc put_endpoint header part_bytes
parts-bytes i rest i0 h nd ne =
    let e : List ℕ = concat_map (endpoint_bytes false) i.eps in
    let i1 : DescIface = puts other_bytes put_desc i.descs (e ++ rest) i0 in
    let i2 : DescIface = puts (endpoint_bytes false) put_endpoint i.eps rest i1 in
    let D : DescIface → List ℕ = λ (j : DescIface). concat_map other_bytes j.descs in
    let E : DescIface → List ℕ = λ (j : DescIface). concat_map (endpoint_bytes false) j.eps in
    let head : header i2 ≡ header i0 =
      puts-keep (endpoint_bytes false) put_endpoint header (λ x r s. refl) i.eps rest i1
      ∙ puts-keep other_bytes put_desc header (λ x r s. refl) i.descs (e ++ rest) i0 in
    let descs : D i2 ≡ D i =
      puts-keep (endpoint_bytes false) put_endpoint D (λ x r s. refl) i.eps rest i1
      ∙ puts-bytes other_bytes put_desc IsPlainOther D put_desc-bytes i.descs (e ++ rest) i0 h.0
      ∙ ap (λ l. concat_map other_bytes l ++ D i) nd in
    let eps : E i2 ≡ e =
      puts-bytes (endpoint_bytes false) put_endpoint IsPlainEndpoint E put_endpoint-bytes i.eps rest
        i1 h.1
      ∙ ap (λ l. l ++ e) (puts-keep other_bytes put_desc E (λ x r s. refl) i.descs (e ++ rest) i0)
      ∙ ap (λ l. concat_map (endpoint_bytes false) l ++ e) ne in
    ap (λ l. l ++ (D i2 ++ E i2)) head
    ∙ ap (λ l. header i0 ++ (l ++ E i2)) descs
    ∙ ap (λ l. header i0 ++ (D i ++ l)) eps

-- An interface with all that belongs to it.
read_whole : DescIface → List ℕ → DescIface
read_whole i rest = read_parts i rest (read_iface (iface_bytes false i ++ rest))

put_iface : List DescConfig → DescIface → List ℕ → DescConfig × Option ℕ → DescConfig × Option ℕ
put_iface before i rest (c, k) =
    (record c { ifs = c.ifs ++ (read_whole i rest ∷ []) }, some (length before))

iface-Rounds :
    (before : List DescConfig) (i : DescIface)
    → IsPlainIface i
    → Rounds
        (λ (j : DescIface). suc (part_rounds j))
        (iface_bytes false)
        (between before)
        (put_iface before)
        i
unfolding Rounds put_iface between read_whole read_item iface_bytes header part_bytes
iface-Rounds before i h fuel pos rest (c, k) =
    let d : List ℕ = iface_bytes false i ++ rest in
    let item : read_item d (between before (c, k)) ≡ some (within before c (read_iface d), 0) =
      ap
        (λ (l : List DescConfig).
          some
            (record { confs = l; config = some (length before); iface = some (length before) }, 0))
        (at-append (λ (c : DescConfig). record c { ifs = c.ifs ++ (read_iface d ∷ []) }) before
          c) in
    ap (λ f. parse_loop f pos d (between before (c, k))) {x = suc (part_rounds i) + fuel}
      {y = 1 + (part_rounds i + fuel)} (omega arith)
    ∙ one_round (part_rounds i + fuel) pos (header i) (part_bytes i ++ rest) (between before (c, k))
        (within before c (read_iface d)) 0 (omega arith) item refl
    ∙ parts_loop before c i fuel (pos + 9) rest (read_iface d) h
    ∙ ap (λ q. parse_loop fuel q rest (within before c (read_whole i rest))) (omega arith)

read_whole-bytes :
    (i : DescIface) (rest : List ℕ)
    → IsPlainIface i
    → iface_bytes false (read_whole i rest) ≡ iface_bytes false i
unfolding read_whole read_iface iface_bytes header part_bytes
read_whole-bytes i rest h =
    parts-bytes i rest (read_iface (iface_bytes false i ++ rest)) h refl refl

-- A configuration without interface groups, of which the parser keeps all parts.
pub record IsPlainConfig (c : DescConfig) : Type 0 where
  pub no_groups : c.if_groups ≡ []
  pub plain : All IsPlainIface c.ifs

-- The configuration that is read from the bytes of another one.
reread : List DescConfig → DescConfig → DescConfig
reread before c =
    (puts (iface_bytes false) (put_iface before) c.ifs []
      (read_config (config_bytes false c), none)).0

rounds_one : {A : Type 0} (xs : List A) → all_rounds (λ _. 1) xs ≡ length xs
unfolding all_rounds
rounds_one [] = refl
rounds_one (x ∷ xs) = omega (arith, rounds_one xs)

iface_rounds-le :
    (i : DescIface) → IsPlainIface i → suc (part_rounds i) ≤ length (iface_bytes false i)
unfolding part_rounds iface_bytes endpoint_bytes
iface_rounds-le i h =
    let d : all_rounds (λ _. 1) i.descs ≤ length (concat_map other_bytes i.descs) =
      all_rounds-le (λ _. 1) other_bytes IsPlainOther
        (λ x p. omega (arith, length-take (other_size x) x.bytes, p.whole, p.room)) i.descs h.0 in
    let e : all_rounds (λ _. 1) i.eps ≤ length (concat_map (endpoint_bytes false) i.eps) =
      all_rounds-le (λ _. 1) (endpoint_bytes false) IsPlainEndpoint (λ x p. omega arith) i.eps
        h.1 in
    omega (
      arith,
      d,
      e,
      length-append (concat_map other_bytes i.descs) (concat_map (endpoint_bytes false) i.eps),
    )

-- The header of a configuration of the given total size.
config_header : DescConfig → ℕ → List ℕ
config_header c total =
    0x09
    ∷ 0x02
    ∷ usb_lo total
    ∷ usb_hi total
    ∷ c.b_num_interfaces
    ∷ c.b_configuration_value
    ∷ c.i_configuration
    ∷ c.bm_attributes
    ∷ c.b_max_power
    ∷ []

all_ifaces :
    (c : DescConfig) → c.if_groups ≡ [] → body false c ≡ concat_map (iface_bytes false) c.ifs
unfolding body
all_ifaces c e =
    ap
      (λ (g : List DescIfaceAssoc).
        concat_map (group_bytes false) g ++ concat_map (iface_bytes false) c.ifs)
      e

loop_whole :
    (c : DescConfig) (confs : List DescConfig)
    → c.if_groups ≡ []
    → All IsPlainIface c.ifs
    → let d : List ℕ = config_bytes false c in
      parse_loop (suc (length d)) 0 d (record { confs = confs; config = none; iface = none })
      ≡ some (
        between confs (
          reread confs c,
          (puts (iface_bytes false) (put_iface confs) c.ifs [] (read_config d, none)).1,
        ),
        length d,
      )
unfolding reread read_item config_bytes between config_header parse_loop
loop_whole c confs e h =
    let b : List ℕ = concat_map (iface_bytes false) c.ifs in
    let n : DescIface → ℕ = λ j. suc (part_rounds j) in
    let d : List ℕ = config_bytes false c in
    let s : Parsed = record { confs = confs; config = none; iface = none } in
    let r : ℕ = all_rounds n c.ifs in
    let size : length (body false c) ≡ length b = ap length (all_ifaces c e) in
    let few : r ≤ length b =
      all_rounds-le n (iface_bytes false) IsPlainIface iface_rounds-le c.ifs h in
    let f : ℕ = length d - 1 - r in
    let first : DescConfig = read_config d in
    ap (λ m. parse_loop m 0 d s) {x = suc (length d)} {y = 1 + (r + suc f)} (omega arith)
    ∙ one_round (r + suc f) 0 (config_header c (9 + length (body false c))) (body false c) s
        (between confs (first, none)) 0 (omega arith) refl refl
    ∙ ap (λ l. parse_loop (r + suc f) 9 l (between confs (first, none)))
        (all_ifaces c e ∙ sym (append-nil b))
    ∙ reads_all n (iface_bytes false) IsPlainIface (between confs) (put_iface confs)
        (iface-Rounds confs) c.ifs (suc f) 9 [] (first, none) h
    ∙ ap
        (λ q.
          some
            (between confs (puts (iface_bytes false) (put_iface confs) c.ifs [] (first, none)), q))
        (omega arith)

put_iface-bytes :
    (before : List DescConfig) (i : DescIface) (rest : List ℕ) (s : DescConfig × Option ℕ)
    → IsPlainIface i
    → concat_map (iface_bytes false) (put_iface before i rest s).0.ifs
      ≡ concat_map (iface_bytes false) s.0.ifs ++ iface_bytes false i
unfolding put_iface
put_iface-bytes before i rest (c, k) h =
    concat_map-append (iface_bytes false) c.ifs (read_whole i rest ∷ [])
    ∙ ap (λ l. concat_map (iface_bytes false) c.ifs ++ l) (append-nil _ ∙ read_whole-bytes i rest h)

reread-bytes :
    (before : List DescConfig) (c : DescConfig)
    → c.if_groups ≡ []
    → All IsPlainIface c.ifs
    → config_bytes false (reread before c) ≡ config_bytes false c
unfolding reread config_bytes config_header put_iface read_config
reread-bytes before c e h =
    let d : List ℕ = config_bytes false c in
    let put = put_iface before in
    let c' : DescConfig = reread before c in
    let groups : c'.if_groups ≡ [] =
      puts-keep (iface_bytes false) (put_iface before)
        (λ (s : DescConfig × Option ℕ). s.0.if_groups) (λ x r s. refl) c.ifs []
        (read_config d, none) in
    let same : body false c' ≡ body false c =
      all_ifaces c' groups
      ∙ puts-bytes (iface_bytes false) (put_iface before) IsPlainIface
          (λ (s : DescConfig × Option ℕ). concat_map (iface_bytes false) s.0.ifs)
          (put_iface-bytes before) c.ifs [] (read_config d, none) h
      ∙ sym (all_ifaces c e) in
    let head : config_header c' (9 + length (body false c))
        ≡ config_header c (9 + length (body false c)) =
      puts-keep (iface_bytes false) (put_iface before)
        (λ (s : DescConfig × Option ℕ). config_header s.0 (9 + length (body false c)))
        (λ x r s. refl) c.ifs [] (read_config d, none) in
    ap (λ l. config_header c' (9 + length l) ++ l) same ∙ ap (λ l. l ++ body false c) head

-- The bytes of a configuration without interface groups, of which every class descriptor has a
-- kind that the parser keeps and its own size in front, and of which exactly the audio
-- endpoints have a descriptor behind them, are parsed whole: the device gets one configuration
-- more, and the bytes of this one are the same.
pub usb_desc_parse_config-back :
    (c : DescConfig) (dev : DescDevice)
    → IsPlainConfig c
    → (c' : DescConfig) × (usb_desc_parse_config (config_bytes false c) dev
        ≡ some (record dev { confs = dev.confs ++ (c' ∷ []) }, length (config_bytes false c)))
      × (config_bytes false c' ≡ config_bytes false c)
unfolding usb_desc_parse_config between
usb_desc_parse_config-back c dev h = (
  reread dev.confs c,
  ap
      (λ o. elim o as (λ o. Option (DescDevice × ℕ)) [
        | none ↦ none
        | some (s, pos) ↦ some (record dev { confs = s.confs }, pos)
      ])
      (loop_whole c dev.confs h.no_groups h.plain),
  reread-bytes dev.confs c h.no_groups h.plain,
)
