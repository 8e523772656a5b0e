-- ===== src/Pad/Overreads.antt =====
-- When ParseFFData reads outside of the tables of coefficients.
use usbqemu_wheel.Common.{
  ℕ, zero, suc, ◌*◌, ◌/◌, ◌%◌, ◌≡◌, refl, sym, ap, ◌∙◌, inl, inr, Bool, true, false, not, ◌&&◌,
  ◌||◌, Option, none, some, List, [], ◌∷◌, leb, ◌==◌, if◌then◌else◌, Bool-cases, if_both, if_when,
  if_unless, ==_iff, ==_ne, length, get_or, bit, arith,
}
use usbqemu_wheel.Pad.{FfData, Pad}
use usbqemu_wheel.Pad.Force.{
  Call, old_coefs, coefs, coef_at, ff_lg_get_force_coefficient, ff_lg_get_condition_coef, slope,
  set_spring_force, set_damper_force,
}
use usbqemu_wheel.Pad.Effects.{
  cmd_download, cmd_download_and_play, cmd_stop, cmd_default_spring_off, cmd_extended, ftype_spring,
  ftype_damper, ftype_constant, ftype_high_resolution_spring, ftype_variable, ftype_friction,
  ftype_high_resolution_damper, ftype_auto_center_spring, alone, play, load, and_pad, run_command,
  parse_ff_data,
}

abbrev pub fails : {A : Type 0} → Option A → Bool
fails none = true
fails (some a) = false

-- The kinds that read outside of the tables of eight: a low resolution spring or damper with a
-- selector of 8 or more, in four bits of the spring's third byte or in the bytes of the damper.
abbrev pub kind_overreads : FfData → Bool
kind_overreads d =
    let ks = get_or d.params 2 0 in
    (d.kind == ftype_spring && (leb 8 (ks % 16) || leb 8 (ks / 16)))
    || (d.kind == ftype_damper && (leb 8 (get_or d.params 0 0) || leb 8 (get_or d.params 2 0)))

-- Only CMD_DOWNLOAD_AND_PLAY plays a force.
abbrev pub overreads : FfData → Bool
overreads d = d.cmdslot % 16 == cmd_download_and_play && kind_overreads d

coef_at-fails : (cs : List (ℕ × ℕ)) (k : ℕ) → fails (coef_at cs k) ≡ leb (length cs) k
coef_at-fails [] k = ground arith
coef_at-fails (c ∷ cs) zero = ground arith
coef_at-fails (c ∷ cs) (suc k) = coef_at-fails cs k ∙ ground arith

-- A selector of a wheel with these abilities is outside of the table.
abbrev beyond : ℕ → ℕ → Bool
beyond caps k = if bit caps 0 then false else leb 8 k

fails_three :
    {A : Type 0} (a b l : Bool) (x : A) (o q : Option A)
    → fails o ≡ l
    → fails q ≡ l
    → fails (if a then some x else if b then o else q) ≡ (if a then false else l)
fails_three true b l x o q e f = refl
fails_three false true l x o q e f = e
fails_three false false l x o q e f = f

fails_then :
    {A B : Type 0} (o : Option A) (f : A → B)
    → fails (elim o [ none ↦ none | some a ↦ some (f a) ]) ≡ fails o
fails_then none f = refl
fails_then (some a) f = refl

fails_both :
    {A : Type 0} (o q : Option A) (f : A → A → Call)
    → fails
        (alone (elim o [ none ↦ none | some a ↦ elim q [ none ↦ none | some b ↦ some (f a b) ] ]))
      ≡ (fails o || fails q)
fails_both none q f = refl
fails_both (some a) none f = refl
fails_both (some a) (some b) f = refl

force_coefficient-fails : (caps k : ℕ) → fails (ff_lg_get_force_coefficient caps k) ≡ beyond caps k
unfolding ff_lg_get_force_coefficient
force_coefficient-fails caps k =
    fails_three (bit caps 0) (bit caps 1) (leb 8 k) (k, 15) (coef_at old_coefs k) (coef_at coefs k)
      (coef_at-fails old_coefs k) (coef_at-fails coefs k)

condition_coef-fails : (caps k s : ℕ) → fails (ff_lg_get_condition_coef caps k s) ≡ beyond caps k
unfolding ff_lg_get_condition_coef
condition_coef-fails caps k s =
    fails_then (ff_lg_get_force_coefficient caps k) (λ (c : ℕ × ℕ). slope (32767 * c.0 / c.1) s)
    ∙ force_coefficient-fails caps k

spring-fails :
    (params : List ℕ) (caps : ℕ)
    → fails (alone (set_spring_force params caps))
      ≡ (beyond caps (get_or params 2 0 % 16) || beyond caps (get_or params 2 0 / 16))
unfolding set_spring_force
spring-fails params caps =
    let ks : ℕ = get_or params 2 0 in
    let ss : ℕ = get_or params 3 0 in
    fails_both (ff_lg_get_condition_coef caps (ks % 16) (ss % 16))
      (ff_lg_get_condition_coef caps (ks / 16) (ss / 16)) _
    ∙ rw
        (
          condition_coef-fails caps (ks % 16) (ss % 16),
          condition_coef-fails caps (ks / 16) (ss / 16),
        )
        refl

damper-fails :
    (params : List ℕ) (caps : ℕ)
    → fails (alone (set_damper_force params caps))
      ≡ (beyond caps (get_or params 0 0) || beyond caps (get_or params 2 0))
unfolding set_damper_force
damper-fails params caps =
    let k1 : ℕ = get_or params 0 0 in
    let s1 : ℕ = get_or params 1 0 in
    let k2 : ℕ = get_or params 2 0 in
    let s2 : ℕ = get_or params 3 0 in
    fails_both (ff_lg_get_condition_coef caps k1 s1) (ff_lg_get_condition_coef caps k2 s2) _
    ∙ rw (condition_coef-fails caps k1 s1, condition_coef-fails caps k2 s2) refl

or-false : (b : Bool) → b ≡ (b || false)
or-false true = refl
or-false false = refl

old_spring-fails :
    (params : List ℕ) (is_dfp : Bool)
    → fails (alone (set_spring_force params (if is_dfp then 0 else 2)))
      ≡ (leb 8 (get_or params 2 0 % 16) || leb 8 (get_or params 2 0 / 16))
unfolding bit
old_spring-fails params true = spring-fails params 0
old_spring-fails params false = spring-fails params 2

old_damper-fails :
    (params : List ℕ)
    → fails (alone (set_damper_force params 0))
      ≡ (leb 8 (get_or params 0 0) || leb 8 (get_or params 2 0))
unfolding bit
old_damper-fails params = damper-fails params 0

new_spring-holds : (params : List ℕ) → fails (alone (set_spring_force params 5)) ≡ false
unfolding bit
new_spring-holds params = spring-fails params 5

new_damper-holds :
    (params : List ℕ) (is_dfp : Bool)
    → fails (alone (set_damper_force params (if is_dfp then 9 else 1))) ≡ false
unfolding bit
new_damper-holds params true = damper-fails params 9
new_damper-holds params false = damper-fails params 1

-- The other kinds never fail.
play-holds :
    (slots : ℕ) (d : FfData) (is_dfp : Bool)
    → (d.kind == ftype_spring) ≡ false
    → (d.kind == ftype_damper) ≡ false
    → fails (play slots d is_dfp) ≡ false
unfolding play
play-holds slots d is_dfp e f =
    let P : Option (List Call) → Type 0 = λ o. fails o ≡ false in
    if_both P (d.kind == ftype_constant) refl (
      if_unless P _ e (
        if_both P (d.kind == ftype_high_resolution_spring) (new_spring-holds d.params) (
          if_both P (d.kind == ftype_variable) refl (
            if_both P (d.kind == ftype_friction) refl (
              if_unless P _ f (
                if_both P (d.kind == ftype_high_resolution_damper)
                  (new_damper-holds d.params is_dfp)
                  (if_both P (d.kind == ftype_auto_center_spring) refl refl)))))))

play-fails :
    (slots : ℕ) (d : FfData) (is_dfp : Bool) → fails (play slots d is_dfp) ≡ kind_overreads d
unfolding play
play-fails slots d is_dfp = elim (Bool-cases (d.kind == ftype_spring)) [
  | inl e ↦ rw ((==_iff _ _).0 e) (old_spring-fails d.params is_dfp ∙ or-false _)
  | inr e ↦ elim (Bool-cases (d.kind == ftype_damper)) [
    | inl f ↦ rw ((==_iff _ _).0 f) (old_damper-fails d.params)
    | inr f ↦ play-holds slots d is_dfp e f ∙ rw (e, f) refl
  ]
]

and_pad-fails : (p : Pad) (o : Option (List Call)) → fails (and_pad p o) ≡ fails o
and_pad-fails p none = refl
and_pad-fails p (some calls) = refl

run_command-fails :
    (p : Pad) (d : FfData) (is_dfp : Bool) → fails (run_command p d is_dfp) ≡ overreads d
unfolding run_command
run_command-fails p d is_dfp =
    let slots : ℕ = d.cmdslot / 16 % 16 in
    let command : ℕ = d.cmdslot % 16 in
    let P : Option (Pad × List Call) → Type 0 = λ o. fails o ≡ overreads d in
    let Q : Option (Pad × List Call) → Type 0 = λ o. fails o ≡ false in
    let holds : command == cmd_download_and_play ≡ false → Q (run_command p d is_dfp) = λ e.
      if_both Q (command == cmd_download) refl (
        if_unless Q _ e (
          if_both Q (command == cmd_stop) refl
            (if_both Q (command == cmd_default_spring_off && slots == 0xf) refl refl))) in
    elim (Bool-cases (command == cmd_download_and_play)) [
      | inl e ↦
          if_unless P _ (==_ne command cmd_download (λ z. absurd (omega (arith, (==_iff _ _).0 e))))
            (if_when P _ e (
              and_pad-fails (load p slots d) (play slots d is_dfp)
              ∙ play-fails slots d is_dfp
              ∙ sym (rw e refl)))
      | inr e ↦ holds e ∙ sym (rw e refl)
    ]

-- Where a pad has its device, ParseFFData reads outside of the tables of coefficients just for
-- a CMD_DOWNLOAD_AND_PLAY of a spring of low resolution with a selector of 8 or more on one of
-- its sides, or of a damper of low resolution with such a selector. For each other command it
-- returns; without the device it always does.
pub parse_ff_data-fails :
    (p : Pad) (d : FfData) (is_dfp : Bool)
    → fails (parse_ff_data p d is_dfp) ≡ (p.has_ffdev && overreads d)
unfolding parse_ff_data
parse_ff_data-fails p d is_dfp =
    let P : Option (Pad × List Call) → Type 0 = λ o. fails o ≡ (p.has_ffdev && overreads d) in
    elim (Bool-cases p.has_ffdev) [
      | inr e ↦ rw e refl
      | inl e ↦ elim (Bool-cases (d.cmdslot == cmd_extended)) [
        | inl f ↦ rw (e, (==_iff _ _).0 f) refl
        | inr f ↦
            if_unless P _ (ap not e)
              (if_unless P _ f (run_command-fails p d is_dfp ∙ sym (rw e refl)))
      ]
    ]
