-- ===== src/Hid/Queue.antt =====
-- The keyboard's queue as a list, and the keyboard that stays well-formed.
use usbqemu_wheel.Common.{
  ℕ, zero, suc, ◌+◌, ◌-◌, ◌%◌, ◌≤◌, ◌<◌, ◌≡◌, ◌≢◌, refl, sym, ap, ◌∙◌, inl, inr, Bool, true, false,
  List, [], ◌∷◌, ◌++◌, ltb, leb, if◌then◌else◌, length, get_or, set, length-set, get_or-set_self,
  get_or-set_ne, arith, Bool-cases, if_when, if_unless, if_both, option_any, ltb→lt, ◌&&◌, bit,
}
use mathlib.Core.List.{append_assoc, append-nil}
use usbqemu_wheel.Hid.{
  Keyboard, queue_length, append_scancodes, hid_keyboard_event, find_key, release, press, modify,
}

-- The indices stay inside of the arrays.
pub record IsKeyboard (k : Keyboard) : Type 0 where
  pub codes_size : length k.keycodes ≡ queue_length
  pub key_size : length k.key ≡ 16
  pub head_in : k.head < queue_length
  pub n_in : k.n ≤ queue_length
  pub keys_in : k.keys ≤ 16

-- The codes that wait, `m` of them from the one at `i` on.
unfoldable pub codes : List ℕ → ℕ → ℕ → List ℕ
codes l i zero = []
codes l i (suc m) = get_or l (i % queue_length) 0 ∷ codes l (i + 1) m

unfoldable pub pending : Keyboard → List ℕ
pending k = codes k.keycodes k.head k.n

shift : (i m : ℕ) → i + 1 + m ≡ i + suc m
shift i m = omega arith

next : (m : ℕ) → suc m + 1 ≡ suc (m + 1)
next m = omega arith

-- A code behind the others.
codes-append :
    (l : List ℕ) (i m : ℕ)
    → codes l i (m + 1) ≡ codes l i m ++ (get_or l ((i + m) % queue_length) 0 ∷ [])
unfolding codes
codes-append l i zero = ap (λ j. get_or l (j % queue_length) 0 ∷ []) (omega arith)
codes-append l i (suc m) =
    ap (codes l i) (next m)
    ∙ ap (λ t. get_or l (i % queue_length) 0 ∷ t)
        (codes-append l (i + 1) m
          ∙ ap (λ j. codes l (i + 1) m ++ (get_or l (j % queue_length) 0 ∷ [])) (shift i m))

-- A write to another place.
codes-set :
    (l : List ℕ) (i m j v : ℕ)
    → ((x : ℕ) → x < m → (i + x) % queue_length ≢ j)
    → codes (set l j v) i m ≡ codes l i m
unfolding codes
codes-set l i zero j v h = refl
codes-set l i (suc m) j v h =
    ap (λ a. a ∷ codes (set l j v) (i + 1) m)
      (get_or-set_ne l j (i % queue_length) v 0
        (λ e. h 0 (omega arith) (ap (λ t. t % queue_length) (omega arith) ∙ sym e)))
    ∙ ap (λ t. get_or l (i % queue_length) 0 ∷ t)
        (codes-set l (i + 1) m j v
          (λ x lt e. h (suc x) (omega arith) (ap (λ t. t % queue_length) (sym (shift i x)) ∙ e)))

-- One scan code.
push : Keyboard → ℕ → Keyboard
push k c = record k { keycodes = set k.keycodes ((k.head + k.n) % queue_length) c; n = k.n + 1 }

push-IsKeyboard :
    (k : Keyboard) (c : ℕ) → IsKeyboard k → k.n + 1 ≤ queue_length → IsKeyboard (push k c)
unfolding push
push-IsKeyboard k c v h = record {
  codes_size = length-set k.keycodes _ c ∙ v.codes_size;
  key_size = v.key_size;
  head_in = v.head_in;
  n_in = h;
  keys_in = v.keys_in;
}

apart : (h n x : ℕ) → x < n → n + 1 ≤ queue_length → (h + x) % queue_length ≢ (h + n) % queue_length
apart h n x lt le e = omega arith

pending-push :
    (k : Keyboard) (c : ℕ)
    → IsKeyboard k
    → k.n + 1 ≤ queue_length
    → pending (push k c) ≡ pending k ++ (c ∷ [])
unfolding push pending
pending-push k c v h =
    codes-append (set k.keycodes ((k.head + k.n) % queue_length) c) k.head k.n
    ∙ ap
        (λ l.
          l
          ++ (get_or (set k.keycodes ((k.head + k.n) % queue_length) c)
                ((k.head + k.n) % queue_length) 0
              ∷ []))
        (codes-set k.keycodes k.head k.n ((k.head + k.n) % queue_length) c
          (λ x lt e. apart k.head k.n x lt h e))
    ∙ ap (λ a. pending k ++ (a ∷ []))
        (get_or-set_self k.keycodes ((k.head + k.n) % queue_length) c 0
          (omega (arith, v.codes_size)))

-- Scan codes that fit go behind the others.
append_scancodes-pending :
    (k : Keyboard) (cs : List ℕ)
    → IsKeyboard k
    → k.n + length cs ≤ queue_length
    → (pending (append_scancodes k cs) ≡ pending k ++ cs) × IsKeyboard (append_scancodes k cs)
unfolding append_scancodes push
append_scancodes-pending k [] v h = (sym (append-nil (pending k)), v)
append_scancodes-pending k (c ∷ cs) v h =
    let (e, w) =
      append_scancodes-pending (push k c) cs (push-IsKeyboard k c v (omega arith)) (omega arith) in
    (
      e
          ∙ ap (λ l. l ++ cs) (pending-push k c v (omega arith))
          ∙ append_assoc (pending k) (c ∷ []) cs,
      w,
    )

room :
    (k : Keyboard) (cs : List ℕ)
    → ltb queue_length (k.n + length cs) ≡ false
    → k.n + length cs ≤ queue_length
room k cs e = ground arith

-- What the queue holds after an event: the scan codes behind the others if all of them fit, or what it held.
pub record IsQueued (k : Keyboard) (cs : List ℕ) (k' : Keyboard) (told : Bool) : Type 0 where
  pub valid : IsKeyboard k'
  pub fits : k.n + length cs ≤ queue_length → (pending k' ≡ pending k ++ cs) × (told ≡ true)
  pub full : queue_length < k.n + length cs → (k' ≡ k) × (told ≡ false)

-- An event of a well-formed keyboard puts all of its scan codes behind those that wait, in
-- their order, and the device is told; where they do not all fit, nothing changes and the
-- device is not told. The keyboard stays well-formed.
pub hid_keyboard_event-IsQueued :
    (k : Keyboard) (cs : List ℕ)
    → IsKeyboard k
    → IsQueued k cs (hid_keyboard_event k cs).0 (hid_keyboard_event k cs).1
unfolding hid_keyboard_event
hid_keyboard_event-IsQueued k cs v = elim (Bool-cases (ltb queue_length (k.n + length cs))) [
  | inl e ↦
      if_when (λ (r : Keyboard × Bool). IsQueued k cs r.0 r.1) (append_scancodes k cs, true) e
        (record {
          valid = v;
          fits = λ le. absurd (omega (arith, ltb→lt queue_length (k.n + length cs) e));
          full = λ lt. (refl, refl);
        })
  | inr e ↦
      if_unless (λ (r : Keyboard × Bool). IsQueued k cs r.0 r.1) (k, false) e
        (record {
          valid = (append_scancodes-pending k cs v (room k cs e)).1;
          fits = λ le. ((append_scancodes-pending k cs v le).0, refl);
          full = λ lt. absurd (omega (arith, room k cs e));
        })
]

-- Same queue.
abbrev pub Kept : Keyboard → Keyboard → Type 0
Kept k k' = IsKeyboard k' × (pending k' ≡ pending k)

pub release-Kept : (k : Keyboard) (c : ℕ) → IsKeyboard k → Kept k (release k c)
unfolding release pending
release-Kept k c v =
    option_any (Kept k) (find_key k.key k.keys c) k
      (λ i. record k {
        key = set (set k.key i (get_or k.key (k.keys - 1) 0)) (k.keys - 1) 0;
        keys = k.keys - 1;
      })
      (v, refl)
      (λ i. (
        record {
          codes_size = v.codes_size;
          key_size =
              length-set (set k.key i (get_or k.key (k.keys - 1) 0)) (k.keys - 1) 0
              ∙ length-set k.key i _
              ∙ v.key_size;
          head_in = v.head_in;
          n_in = v.n_in;
          keys_in = omega (arith, v.keys_in);
        },
        refl,
      ))

grown :
    (k : Keyboard) (c : ℕ)
    → IsKeyboard k
    → k.keys < 16
    → Kept k (record k { key = set k.key k.keys c; keys = k.keys + 1 })
unfolding pending
grown k c v lt = (
  record {
    codes_size = v.codes_size;
    key_size = length-set k.key k.keys c ∙ v.key_size;
    head_in = v.head_in;
    n_in = v.n_in;
    keys_in = omega arith;
  },
  refl,
)

pub press-Kept : (k : Keyboard) (c : ℕ) → IsKeyboard k → Kept k (press k c)
unfolding press pending
press-Kept k c v =
    option_any (Kept k) (find_key k.key k.keys c)
      (if ltb k.keys 16 then record k { key = set k.key k.keys c; keys = k.keys + 1 } else k)
      (λ i. k)
      (elim (Bool-cases (ltb k.keys 16)) [
        | inl e ↦ if_when (Kept k) k e (grown k c v (ltb→lt k.keys 16 e))
        | inr e ↦
            if_unless (Kept k) (record k { key = set k.key k.keys c; keys = k.keys + 1 }) e
              (v, refl)
      ])
      (λ i. (v, refl))

-- The modifiers do not matter.
pub with_modifiers-Kept :
    (k : Keyboard) (m : ℕ) → IsKeyboard k → Kept k (record k { modifiers = m })
unfolding pending
with_modifiers-Kept k m v = (
  record {
    codes_size = v.codes_size;
    key_size = v.key_size;
    head_in = v.head_in;
    n_in = v.n_in;
    keys_in = v.keys_in;
  },
  refl,
)

pub modify-Kept : (k : Keyboard) (h c : ℕ) → IsKeyboard k → Kept k (modify k h c)
unfolding modify pending
modify-Kept k h c v =
    if_both (Kept k) (leb h 0xe7 && bit c 7) (with_modifiers-Kept k _ v) (with_modifiers-Kept k _ v)
