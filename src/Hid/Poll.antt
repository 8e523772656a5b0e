-- ===== src/Hid/Poll.antt =====
-- The whole of hid_keyboard_poll: no code of the queue makes it fail.
use usbqemu_wheel.Common.{
  ℕ, zero, suc, ◌+◌, ◌-◌, ◌%◌, ◌^◌, ◌≤◌, ◌≡◌, ◌≢◌, refl, sym, ap, ◌∙◌, inl, inr, Bool, true, false,
  not, ◌&&◌, Option, none, some, List, [], ◌∷◌, ltb, leb, ◌==◌, if◌then◌else◌, length, get_or,
  replicate, take, drop, min, bit, clear, arith, ==_iff, ltb_ge, length-take, length-replicate,
  Bool-cases, if_when, if_unless, if_both,
}
use usbqemu_wheel.Hid.{
  Keyboard, queue_length, dequeue, apply_code, hid_keyboard_process_keycode, report,
  hid_keyboard_poll, hid_usage_keys, rollover,
}
use usbqemu_wheel.Hid.Queue.{
  IsKeyboard, codes, pending, Kept, release-Kept, press-Kept, modify-Kept, with_modifiers-Kept,
}

-- Whether a list lacks `v`.
lacks : List ℕ → ℕ → Bool
lacks [] v = true
lacks (x ∷ xs) v = not (x == v) && lacks xs v

-- Whether a list has `v` at the place `i` only.
only : List ℕ → ℕ → ℕ → Bool
only [] i v = true
only (x ∷ xs) zero v = lacks xs v
only (x ∷ xs) (suc i) v = not (x == v) && only xs i v

get_or-lacks : (xs : List ℕ) (v j : ℕ) → v ≢ 0 → lacks xs v ≡ true → get_or xs j 0 ≢ v
unfolding lacks
get_or-lacks [] v j nz h e = nz (sym e)
get_or-lacks (x ∷ xs) v zero nz h e = ground arith
get_or-lacks (x ∷ xs) v (suc j) nz h e = get_or-lacks xs v j nz (ground arith) e

get_or-only : (xs : List ℕ) (i v j : ℕ) → v ≢ 0 → only xs i v ≡ true → get_or xs j 0 ≡ v → j ≡ i
unfolding only
get_or-only [] i v j nz h e = absurd (nz (sym e))
get_or-only (x ∷ xs) zero v zero nz h e = refl
get_or-only (x ∷ xs) zero v (suc j) nz h e = absurd (get_or-lacks xs v j nz h e)
get_or-only (x ∷ xs) (suc i) v zero nz h e = ground arith
get_or-only (x ∷ xs) (suc i) v (suc j) nz h e = ap suc (get_or-only xs i v j nz (ground arith) e)

-- The code of the left control key stands at one place of the table, so that the assertion holds.
control_key : (j : ℕ) → get_or hid_usage_keys j 0 ≡ 0xe0 → j ≡ 0x1d
unfolding only lacks
control_key j e = get_or-only hid_usage_keys 0x1d 0xe0 j (omega arith) refl e

-- A result, with what holds of it.
Done : (Keyboard → Type 0) → Option Keyboard → Type 0
Done P o = (k : Keyboard) × (o ≡ some k) × P k

control_low :
    (b : Bool) (c : ℕ)
    → get_or hid_usage_keys (if b then c % 2 ^ 7 + 2 ^ 7 else c % 2 ^ 7) 0 ≡ 0xe0
    → c % 2 ^ 7 ≡ 0x1d
control_low true c e = omega (arith, control_key (c % 2 ^ 7 + 2 ^ 7) e)
control_low false c e = control_key (c % 2 ^ 7) e

no_failure : (x low : ℕ) → (x ≡ 0xe0 → low ≡ 0x1d) → ((x == 0xe0) && not (low == 0x1d)) ≡ false
no_failure x low h = ground arith

apply_code-Done : (k : Keyboard) (c : ℕ) → IsKeyboard k → Done (Kept k) (apply_code k c)
unfolding apply_code Done pending
apply_code-Done k c v =
    let b : Bool = bit k.modifiers 8 in
    let low : ℕ = c % 2 ^ 7 in
    let h : ℕ = get_or hid_usage_keys (if b then low + 2 ^ 7 else low) 0 in
    let m : ℕ = clear k.modifiers (2 ^ 8) in
    let k1 : Keyboard = record k { modifiers = m } in
    let v1 = with_modifiers-Kept k m v in
    if_both (Done (Kept k)) (h == 0) (k1, refl, v1)
      (if_unless (Done (Kept k)) none (no_failure h low (control_low b c)) (
        if_both (Done (Kept k)) (h == 0xe0 && bit m 9) (_, refl, with_modifiers-Kept k _ v)
          (if_both (Done (Kept k)) (leb 0xe0 h && leb h 0xe9) (_, refl, modify-Kept k1 h c v1.0)
            (_, refl, if_both (Kept k) (bit c 7) (release-Kept k1 h v1.0) (press-Kept k1 h v1.0)))))

codes-cong :
    (l : List ℕ) (i j m : ℕ) → i % queue_length ≡ j % queue_length → codes l i m ≡ codes l j m
unfolding codes
codes-cong l i j zero e = refl
codes-cong l i j (suc m) e =
    ap (λ x. get_or l x 0 ∷ codes l (i + 1) m) e
    ∙ ap (λ t. get_or l (j % queue_length) 0 ∷ t) (codes-cong l (i + 1) (j + 1) m (omega arith))

-- The keyboard after its first code was taken.
rest : Keyboard → Keyboard
rest k = record k { head = (k.head + 1) % queue_length; n = k.n - 1 }

rest-IsKeyboard : (k : Keyboard) → IsKeyboard k → IsKeyboard (rest k)
unfolding rest
rest-IsKeyboard k v = record {
  codes_size = v.codes_size;
  key_size = v.key_size;
  head_in = omega arith;
  n_in = omega (arith, v.n_in);
  keys_in = v.keys_in;
}

pred : (n : ℕ) → n ≢ 0 → n ≡ suc (n - 1)
pred n h = omega arith

pending-rest :
    (k : Keyboard)
    → k.n ≢ 0
    → pending k ≡ get_or k.keycodes (k.head % queue_length) 0 ∷ pending (rest k)
unfolding pending rest codes
pending-rest k h =
    ap (codes k.keycodes k.head) (pred k.n h)
    ∙ ap (λ t. get_or k.keycodes (k.head % queue_length) 0 ∷ t)
        (codes-cong k.keycodes (k.head + 1) ((k.head + 1) % queue_length) (k.n - 1) (omega arith))

-- What one code does to the queue.
Served : Keyboard → Keyboard → Type 0
Served k k' = IsKeyboard k' × (pending k' ≡ drop 1 (pending k))

pending-none : (k : Keyboard) → k.n ≡ 0 → pending k ≡ drop 1 (pending k)
unfolding pending codes
pending-none k e =
    ap (codes k.keycodes k.head) e ∙ sym (ap (λ m. drop 1 (codes k.keycodes k.head m)) e)

nonzero : (n : ℕ) → (n == 0) ≡ false → n ≢ 0
nonzero n e = ground arith

process-Done : (k : Keyboard) → IsKeyboard k → Done (Served k) (hid_keyboard_process_keycode k)
unfolding hid_keyboard_process_keycode dequeue Done Served rest
process-Done k v =
    let P : Option (ℕ × Keyboard) → Type 0 =
      λ o. Done (Served k) (elim o [ none ↦ some k | some r ↦ apply_code r.1 r.0 ]) in
    let c : ℕ = get_or k.keycodes (k.head % queue_length) 0 in
    let (k', eq, (w, q)) = apply_code-Done (rest k) c (rest-IsKeyboard k v) in
    elim (Bool-cases (k.n == 0)) [
      | inl e ↦ if_when P (some (c, rest k)) e (k, refl, (v, pending-none k ((==_iff k.n 0).0 e)))
      | inr e ↦
          if_unless P none e (k', eq, (w, q ∙ sym (ap (drop 1) (pending-rest k (nonzero k.n e)))))
    ]

length-report :
    (k : Keyboard) (len : ℕ) → IsKeyboard k → 2 ≤ len → length (report k len) ≡ min 8 len
unfolding report
length-report k len v h =
    let n : ℕ = min 8 len - 2 in
    let few : length (take n k.key) ≡ n = omega (arith, length-take n k.key, v.key_size) in
    let size : length (if ltb 6 k.keys then replicate n rollover else take n k.key) ≡ n =
      if_both (λ (l : List ℕ). length l ≡ n) (ltb 6 k.keys) (length-replicate n rollover) few in
    omega (arith, size)

idle : (k : Keyboard) → IsKeyboard k → Kept k (record k { idle_pending = false })
unfolding pending
idle k v = (
  record {
    codes_size = v.codes_size;
    key_size = v.key_size;
    head_in = v.head_in;
    n_in = v.n_in;
    keys_in = v.keys_in;
  },
  refl,
)

-- A poll of a well-formed keyboard into a buffer of two bytes or more never stops at the
-- assertion: it returns the report of the keyboard that it leaves, of eight bytes or as many as
-- the buffer has. That keyboard is well-formed, and its queue is the old one without its first
-- code.
pub hid_keyboard_poll-serves :
    (k : Keyboard) (len : ℕ)
    → IsKeyboard k
    → 2 ≤ len
    → (k' : Keyboard) × (hid_keyboard_poll k len ≡ some (report k' len, k'))
      × IsKeyboard k'
      × (pending k' ≡ drop 1 (pending k))
      × (length (report k' len) ≡ min 8 len)
unfolding hid_keyboard_poll Done Served
hid_keyboard_poll-serves k len v h =
    let k1 : Keyboard = record k { idle_pending = false } in
    let (v1, q1) = idle k v in
    let (k', e, (w, q)) = process-Done k1 v1 in
    (
      k',
      if_unless (λ o. o ≡ some (report k' len, k')) (some ([], k1)) (ltb_ge len 2 h)
          (ap
            (λ o. elim o as (λ x. Option (List ℕ × Keyboard)) [
              | none ↦ none
              | some k2 ↦ some (report k2 len, k2)
            ])
            e),
      w,
      q ∙ ap (drop 1) q1,
      length-report k' len w h,
    )
