-- ===== src/Pad/Stops.antt =====
-- What a CMD_STOP does after a force was loaded into slots.
use Prim.{Unit, tt}
use usbqemu_wheel.Common.{
  ℕ, zero, suc, ◌+◌, ◌*◌, ◌/◌, ◌%◌, ◌^◌, ◌≤◌, ◌<◌, ◌≡◌, refl, ap, ◌∙◌, ◌⊎◌, inl, inr, Bool, true,
  false, not, ◌&&◌, Option, none, some, List, [], ◌∷◌, ◌++◌, ◌==◌, if◌then◌else◌, Bool-cases,
  if_both, if_when, if_unless, ==_iff, ==_ne, OnSome, option_any, length, get_or, bit, arith,
}
use usbqemu_wheel.Pad.{FfData, Pad}
use usbqemu_wheel.Pad.Force.{
  Call, device_constant_force, device_spring_force, device_damper_force, device_friction_force,
  device_auto_center, disable_force, eff_constant, eff_spring, eff_damper, eff_friction,
  set_constant_force, set_spring_force, set_damper_force, set_friction_force, set_auto_center,
  ff_lg_get_condition_coef,
}
use usbqemu_wheel.Pad.Effects.{
  cmd_download_and_play, cmd_stop, ftype_constant, ftype_spring, ftype_damper,
  ftype_auto_center_spring, ftype_variable, ftype_high_resolution_spring,
  ftype_high_resolution_damper, ftype_friction, store_type, lone_force, play_constant, play_level,
  play_variable, alone, play, stop_type, stop_slots, load, and_pad, run_command, parse_ff_data,
}

-- How many of the `n` slots from `i` on a command names.
abbrev pub count : ℕ → ℕ → ℕ → ℕ
count slots i zero = 0
count slots i (suc n) = let rest = count slots (suc i) n in if bit slots i then suc rest else rest

abbrev pub times : ℕ → List Call → List Call
times zero calls = []
times (suc n) calls = calls ++ times n calls

-- The call that ends the effect of a call.
abbrev pub undo : Call → Call
undo (device_constant_force level) = disable_force eff_constant
undo (device_spring_force c) = disable_force eff_spring
undo (device_damper_force c) = disable_force eff_damper
undo (device_friction_force c) = disable_force eff_friction
undo (device_auto_center v) = device_auto_center 0
undo (disable_force e) = disable_force e

-- Stopping this kind of a force undoes each of the calls.
abbrev pub IsUndoneBy : ℕ → List Call → Type 0
IsUndoneBy kind [] = Unit
IsUndoneBy kind (c ∷ cs) = (stop_type kind ≡ undo c ∷ []) × IsUndoneBy kind cs

-- A test of a kind, with the equation where it holds.
if_equal :
    {A : Type 0} (P : A → Type 0) (kind k : ℕ) {x y : A}
    → (kind ≡ k → P x)
    → P y
    → P (if kind == k then x else y)
if_equal P kind k p q = elim (Bool-cases (kind == k)) [
  | inl e ↦ if_when P _ e (p ((==_iff kind k).0 e))
  | inr e ↦ if_unless P _ e q
]

skip_or_stop :
    (b : Bool) (kind t n : ℕ) (rest : List Call)
    → rest ≡ times n (stop_type kind)
    → (if b then stop_type (if b then kind else t) else []) ++ rest
      ≡ times (if b then suc n else n) (stop_type kind)
skip_or_stop true kind t n rest e = ap (λ r. stop_type kind ++ r) e
skip_or_stop false kind t n rest e = e

stop_slots-store_type :
    (slots kind i : ℕ) (ts : List ℕ)
    → stop_slots slots i (store_type slots kind i ts)
      ≡ times (count slots i (length ts)) (stop_type kind)
unfolding stop_slots store_type
stop_slots-store_type slots kind i [] = refl
stop_slots-store_type slots kind i (t ∷ ts) =
    skip_or_stop (bit slots i) kind t (count slots (suc i) (length ts)) _
      (stop_slots-store_type slots kind (suc i) ts)

append-IsUndoneBy :
    (kind : ℕ) (xs ys : List Call)
    → IsUndoneBy kind xs
    → IsUndoneBy kind ys
    → IsUndoneBy kind (xs ++ ys)
append-IsUndoneBy kind [] ys p q = q
append-IsUndoneBy kind (x ∷ xs) ys p q = (p.0, append-IsUndoneBy kind xs ys p.1 q)

-- The calls of constant forces.
module _ (kind : ℕ) (e : stop_type kind ≡ disable_force eff_constant ∷ []) where
  lone_force-undone :
      (n i slots : ℕ) (params : List ℕ) → IsUndoneBy kind (lone_force n i slots params)
  unfolding lone_force set_constant_force
  lone_force-undone zero i slots params = tt
  lone_force-undone (suc n) i slots params =
      append-IsUndoneBy kind _ _ (if_both (IsUndoneBy kind) (slots == 2 ^ i) (e, tt) tt)
        (lone_force-undone n (suc i) slots params)

  play_constant-undone :
      (slots : ℕ) (params : List ℕ) → IsUndoneBy kind (play_constant slots params)
  unfolding play_constant set_constant_force
  play_constant-undone slots params =
      if_both (IsUndoneBy kind) (slots == 0xf) (e, tt) (lone_force-undone 4 0 slots params)

  play_level-undone : (level step time : ℕ) → IsUndoneBy kind (play_level level step time)
  unfolding play_level set_constant_force
  play_level-undone level step time =
      if_both (IsUndoneBy kind) (not (time == 0) && not (step == 0)) tt (e, tt)

  play_variable-undone :
      (slots : ℕ) (params : List ℕ) → IsUndoneBy kind (play_variable slots params)
  unfolding play_variable
  play_variable-undone slots params =
      if_both (IsUndoneBy kind) (bit slots 0)
        (play_level-undone (get_or params 0 0) (get_or params 2 0 % 16) (get_or params 2 0 / 16))
        (if_both (IsUndoneBy kind) (bit slots 2)
          (play_level-undone (get_or params 1 0) (get_or params 3 0 % 16) (get_or params 3 0 / 16))
          tt)

-- The calls of springs and dampers.
module _ (kind caps : ℕ) (params : List ℕ) where
  spring-undone :
      stop_type kind ≡ disable_force eff_spring ∷ []
      → OnSome (IsUndoneBy kind) (alone (set_spring_force params caps))
  unfolding set_spring_force
  spring-undone e =
      let P : Option Call → Type 0 = λ o. OnSome (IsUndoneBy kind) (alone o) in
      let ks : ℕ = get_or params 2 0 in
      let ss : ℕ = get_or params 3 0 in
      option_any P (ff_lg_get_condition_coef caps (ks % 16) (ss % 16)) none _ tt (λ left.
        option_any P (ff_lg_get_condition_coef caps (ks / 16) (ss / 16)) none _ tt
          (λ right. (e, tt)))

  damper-undone :
      stop_type kind ≡ disable_force eff_damper ∷ []
      → OnSome (IsUndoneBy kind) (alone (set_damper_force params caps))
  unfolding set_damper_force
  damper-undone e =
      let P : Option Call → Type 0 = λ o. OnSome (IsUndoneBy kind) (alone o) in
      option_any P (ff_lg_get_condition_coef caps (get_or params 0 0) (get_or params 1 0)) none _ tt
        (λ left.
          option_any P (ff_lg_get_condition_coef caps (get_or params 2 0) (get_or params 3 0)) none
            _ tt (λ right. (e, tt)))

play-undone :
    (slots : ℕ) (d : FfData) (is_dfp : Bool) → OnSome (IsUndoneBy d.kind) (play slots d is_dfp)
unfolding play stop_type set_friction_force set_auto_center
play-undone slots d is_dfp =
    let P : Option (List Call) → Type 0 = OnSome (IsUndoneBy d.kind) in
    if_equal P d.kind ftype_constant (λ e. play_constant-undone d.kind (rw e refl) slots d.params)
      (if_equal P d.kind ftype_spring
        (λ e. spring-undone d.kind (if is_dfp then 0 else 2) d.params (rw e refl))
        (if_equal P d.kind ftype_high_resolution_spring
          (λ e. spring-undone d.kind 5 d.params (rw e refl))
          (if_equal P d.kind ftype_variable
            (λ e. play_variable-undone d.kind (rw e refl) slots d.params)
            (if_equal P d.kind ftype_friction (λ e. (rw e refl, tt))
              (if_equal P d.kind ftype_damper (λ e. damper-undone d.kind 0 d.params (rw e refl))
                (if_equal P d.kind ftype_high_resolution_damper
                  (λ e. damper-undone d.kind (if is_dfp then 9 else 1) d.params (rw e refl))
                  (if_equal P d.kind ftype_auto_center_spring (λ e. (rw e refl, tt)) tt)))))))

parse-stop :
    (p : Pad) (stop : FfData) (is_dfp : Bool) (slots : ℕ)
    → p.has_ffdev ≡ true
    → slots < 16
    → stop.cmdslot ≡ slots * 16 + cmd_stop
    → parse_ff_data p stop is_dfp ≡ some (p, stop_slots slots 0 p.slot_type)
unfolding parse_ff_data run_command
parse-stop p stop is_dfp slots has h e =
    let command : stop.cmdslot % 16 ≡ 3 = omega arith in
    let named : stop.cmdslot / 16 % 16 ≡ slots = omega arith in
    let plain : (stop.cmdslot == 0xf8) ≡ false = ==_ne _ _ (omega arith) in
    rw (has, plain, command, named) refl

-- What a load leaves: the kinds of the slots, and the calls.
abbrev IsLoaded : Pad → ℕ → FfData → Pad × List Call → Type 0
IsLoaded p slots d r =
    (r.0.has_ffdev ≡ true)
    × (r.0.slot_type ≡ store_type slots d.kind 0 p.slot_type)
    × IsUndoneBy d.kind r.1

and_pad-IsLoaded :
    (p q : Pad) (slots : ℕ) (d : FfData) (o : Option (List Call))
    → q.has_ffdev ≡ true
    → q.slot_type ≡ store_type slots d.kind 0 p.slot_type
    → OnSome (IsUndoneBy d.kind) o
    → OnSome (IsLoaded p slots d) (and_pad q o)
and_pad-IsLoaded p q slots d none has e u = tt
and_pad-IsLoaded p q slots d (some calls) has e u = (has, e, u)

zero_or_one : (n : ℕ) → n ≤ 1 → (n ≡ 0) ⊎ (n ≡ 1)
zero_or_one n h = ground arith

parse-IsLoaded :
    (p : Pad) (d : FfData) (is_dfp : Bool)
    → p.has_ffdev ≡ true
    → d.cmdslot % 16 ≤ 1
    → OnSome (IsLoaded p (d.cmdslot / 16 % 16) d) (parse_ff_data p d is_dfp)
unfolding parse_ff_data run_command load
parse-IsLoaded p d is_dfp has h =
    let slots : ℕ = d.cmdslot / 16 % 16 in
    let P : Option (Pad × List Call) → Type 0 = OnSome (IsLoaded p slots d) in
    let plain : (d.cmdslot == 0xf8) ≡ false = ==_ne _ _ (omega arith) in
    let alive : not p.has_ffdev ≡ false = ap not has in
    if_unless P _ alive (
      if_unless P _ plain (elim (zero_or_one (d.cmdslot % 16) h) [
        | inl e ↦ if_when P _ ((==_iff _ _).1 e) (has, refl, tt)
        | inr e ↦ if_unless P _ (==_ne (d.cmdslot % 16) 0 (omega arith)) (
            if_when P _ ((==_iff _ _).1 e) (
              and_pad-IsLoaded p (load p slots d) slots d (play slots d is_dfp) has refl
                (play-undone slots d is_dfp)))
      ]))

-- Where a pad has its device and a command loads a force into slots, by CMD_DOWNLOAD or by
-- CMD_DOWNLOAD_AND_PLAY, and reads no coefficient outside of its table: each call that it made
-- is undone by what CMD_STOP does for the kind of the force, and a CMD_STOP that follows for
-- the same slots does just this, once for each of the slots, and changes nothing else.
pub stop-undoes :
    (p p' : Pad) (calls : List Call) (d stop : FfData) (is_dfp is_dfp' : Bool)
    → p.has_ffdev ≡ true
    → length p.slot_type ≡ 4
    → d.cmdslot % 16 ≤ cmd_download_and_play
    → stop.cmdslot ≡ d.cmdslot / 16 % 16 * 16 + cmd_stop
    → parse_ff_data p d is_dfp ≡ some (p', calls)
    → IsUndoneBy d.kind calls
      × (parse_ff_data p' stop is_dfp'
          ≡ some (p', times (count (d.cmdslot / 16 % 16) 0 4) (stop_type d.kind)))
stop-undoes p p' calls d stop is_dfp is_dfp' has four h e run =
    let slots : ℕ = d.cmdslot / 16 % 16 in
    let loaded : OnSome (IsLoaded p slots d) (some (p', calls)) =
      rw run at (parse-IsLoaded p d is_dfp has h) in
    let stopped : stop_slots slots 0 p'.slot_type ≡ times (count slots 0 4) (stop_type d.kind) =
      ap (stop_slots slots 0) loaded.1
      ∙ stop_slots-store_type slots d.kind 0 p.slot_type
      ∙ ap (λ n. times (count slots 0 n) (stop_type d.kind)) four in
    (
      loaded.2,
      parse-stop p' stop is_dfp' slots loaded.0 (omega arith) e ∙ ap (λ c. some (p', c)) stopped,
    )
