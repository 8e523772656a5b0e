-- ===== src/Desc/Parse/Rounds.antt =====
-- The rounds of the parser's loop over data of which the parts are known.
use usbqemu_wheel.Common.{
  ℕ, zero, suc, ◌+◌, ◌≤◌, ◌<◌, ◌≡◌, refl, sym, ap, ◌∙◌, Option, none, some, List, [], ◌∷◌, ◌++◌,
  length, get_or, take, drop, arith, length-append, if_unless, ==_ne,
}
use mathlib.Core.List.{append_assoc, append-nil}
use usbqemu_wheel.Desc.{DescIface, DescConfig}
use usbqemu_wheel.Desc.Fits.{All, concat_map}
use usbqemu_wheel.Desc.Parse.{Parsed, at, on_last, on_iface, read_item, parse_loop}

-- What the loop is at while it reads behind an interface.
abbrev pub within : List DescConfig → DescConfig → DescIface → Parsed
within before c i = record {
  confs = before ++ (record c { ifs = c.ifs ++ (i ∷ []) } ∷ []);
  config = some (length before);
  iface = some (length before);
}

pub at-append :
    {A : Type 0} (f : A → A) (xs : List A) (y : A)
    → at (length xs) f (xs ++ (y ∷ [])) ≡ xs ++ (f y ∷ [])
unfolding at
at-append f [] y = refl
at-append f (x ∷ xs) y = ap (λ l. x ∷ l) (at-append f xs y)

on_last-append :
    {A : Type 0} (f : A → A) (xs : List A) (y : A) → on_last f (xs ++ (y ∷ [])) ≡ xs ++ (f y ∷ [])
unfolding on_last
on_last-append f [] y = refl
on_last-append f (x ∷ []) y = refl
on_last-append f (x ∷ z ∷ xs) y = ap (λ l. x ∷ l) (on_last-append f (z ∷ xs) y)

pub on_iface-within :
    (f : DescIface → DescIface) (before : List DescConfig) (c : DescConfig) (i : DescIface)
    → on_iface (length before) f (before ++ (record c { ifs = c.ifs ++ (i ∷ []) } ∷ []))
      ≡ before ++ (record c { ifs = c.ifs ++ (f i ∷ []) } ∷ [])
unfolding on_iface
on_iface-within f before c i =
    at-append (λ (c : DescConfig). record c { ifs = on_last f c.ifs }) before
      (record c { ifs = c.ifs ++ (i ∷ []) })
    ∙ ap (λ l. before ++ (record c { ifs = l } ∷ [])) (on_last-append f c.ifs i)

pub get_or-front : (xs ys : List ℕ) (i : ℕ) → i < length xs → get_or (xs ++ ys) i 0 ≡ get_or xs i 0
get_or-front [] ys i h = absurd (omega arith)
get_or-front (x ∷ xs) ys zero h = refl
get_or-front (x ∷ xs) ys (suc i) h = get_or-front xs ys i (omega arith)

pub get_or-take : (n : ℕ) (xs : List ℕ) (i : ℕ) → i < n → get_or (take n xs) i 0 ≡ get_or xs i 0
get_or-take zero xs i h = absurd (omega arith)
get_or-take (suc n) [] i h = refl
get_or-take (suc n) (x ∷ xs) zero h = refl
get_or-take (suc n) (x ∷ xs) (suc i) h = get_or-take n xs i (omega arith)

pub drop-front : (xs ys : List ℕ) (n : ℕ) → n ≡ length xs → drop n (xs ++ ys) ≡ ys
drop-front [] ys zero e = refl
drop-front [] ys (suc n) e = absurd (omega arith)
drop-front (x ∷ xs) ys zero e = absurd (omega arith)
drop-front (x ∷ xs) ys (suc n) e = drop-front xs ys n (omega arith)

-- One round of the loop, over an item.
round :
    (fuel pos : ℕ) (d rest : List ℕ) (s s' : Parsed) (skip : ℕ)
    → 0 < get_or d 0 0
    → read_item (d ++ rest) s ≡ some (s', skip)
    → get_or d 0 0 + skip ≡ length d
    → parse_loop (suc fuel) pos (d ++ rest) s ≡ parse_loop fuel (pos + length d) rest s'
unfolding parse_loop
round fuel pos [] rest s s' skip z e n = absurd (omega arith)
round fuel pos (x ∷ d) rest s s' skip z e n =
    let P : Option (Parsed × ℕ) → Type 0 =
      λ o. o ≡ parse_loop fuel (pos + suc (length d)) rest s' in
    if_unless P (some (s, pos)) (==_ne x 0 (omega arith)) (
      ap
        (λ r. elim r as (λ r. Option (Parsed × ℕ)) [
          | none ↦ none
          | some (t, k) ↦ parse_loop fuel (pos + x + k) (drop (x + k) (x ∷ (d ++ rest))) t
        ])
        e
      ∙ ap (λ l. parse_loop fuel (pos + x + skip) l s') (drop-front (x ∷ d) rest (x + skip) n)
      ∙ ap (λ k. parse_loop fuel k rest s') (omega arith))

pub take-front : (xs ys : List ℕ) (n : ℕ) → n ≡ length xs → take n (xs ++ ys) ≡ xs
take-front [] ys zero e = refl
take-front [] ys (suc n) e = absurd (omega arith)
take-front (x ∷ xs) ys zero e = absurd (omega arith)
take-front (x ∷ xs) ys (suc n) e = ap (λ l. x ∷ l) (take-front xs ys n (omega arith))

pub concat_map-append :
    {A : Type 0} (f : A → List ℕ) (xs ys : List A)
    → concat_map f (xs ++ ys) ≡ concat_map f xs ++ concat_map f ys
concat_map-append f [] ys = refl
concat_map-append f (x ∷ xs) ys =
    ap (λ l. f x ++ l) (concat_map-append f xs ys)
    ∙ sym (append_assoc (f x) (concat_map f xs) (concat_map f ys))

unfoldable pub all_rounds : {A : Type 0} → (A → ℕ) → List A → ℕ
all_rounds n [] = 0
all_rounds n (x ∷ xs) = n x + all_rounds n xs

-- A change `put` of a state for each part, which sees the data behind it.
unfoldable pub puts : {A S : Type 0} → (A → List ℕ) → (A → List ℕ → S → S) → List A → List ℕ → S → S
puts b put [] rest s = s
puts b put (x ∷ xs) rest s = puts b put xs rest (put x (concat_map b xs ++ rest) s)

-- A part that is read in `n x` rounds.
unfoldable pub Rounds :
    {A S : Type 0} → (A → ℕ) → (A → List ℕ) → (S → Parsed) → (A → List ℕ → S → S) → A → Type 0
Rounds {A} {S} n b to put x =
    (fuel pos : ℕ) (rest : List ℕ) (s : S)
    → parse_loop (n x + fuel) pos (b x ++ rest) (to s)
      ≡ parse_loop fuel (pos + length (b x)) rest (to (put x rest s))

-- Data of which all parts are read.
module _ {A S : Type 0} (n : A → ℕ) (b : A → List ℕ) (P : A → Type 0) (to : S → Parsed)
    (put : A → List ℕ → S → S) where
  pub reads_all :
      ((x : A) → P x → Rounds n b to put x)
      → (xs : List A) (fuel pos : ℕ) (rest : List ℕ) (s : S) → All P xs
      → parse_loop (all_rounds n xs + fuel) pos (concat_map b xs ++ rest) (to s)
        ≡ parse_loop fuel (pos + length (concat_map b xs)) rest (to (puts b put xs rest s))
  unfolding all_rounds puts Rounds
  reads_all step [] fuel pos rest s h =
      ap (λ f. parse_loop f pos rest (to s)) {x = 0 + fuel} {y = fuel} (omega arith)
      ∙ ap (λ q. parse_loop fuel q rest (to s)) (omega arith)
  reads_all step (x ∷ xs) fuel pos rest s h =
      let more : List ℕ = concat_map b xs ++ rest in
      ap (λ f. parse_loop f pos ((b x ++ concat_map b xs) ++ rest) (to s))
        {x = n x + all_rounds n xs + fuel} {y = n x + (all_rounds n xs + fuel)} (omega arith)
      ∙ ap (λ l. parse_loop (n x + (all_rounds n xs + fuel)) pos l (to s))
          (append_assoc (b x) (concat_map b xs) rest)
      ∙ step x h.0 (all_rounds n xs + fuel) pos more s
      ∙ reads_all step xs fuel (pos + length (b x)) rest (put x more s) h.1
      ∙ ap (λ q. parse_loop fuel q rest (to (puts b put xs rest (put x more s))))
          (omega (arith, length-append (b x) (concat_map b xs)))

-- What every `put` keeps, and what it adds at the end.
module _ {A S : Type 0} (b : A → List ℕ) (put : A → List ℕ → S → S) where
  pub puts-keep :
      {K : Type 0} (f : S → K)
      → ((x : A) (rest : List ℕ) (s : S) → f (put x rest s) ≡ f s)
      → (xs : List A) (rest : List ℕ) (s : S) → f (puts b put xs rest s) ≡ f s
  unfolding puts
  puts-keep f e [] rest s = refl
  puts-keep f e (x ∷ xs) rest s =
      puts-keep f e xs rest (put x (concat_map b xs ++ rest) s) ∙ e x (concat_map b xs ++ rest) s

  pub puts-bytes :
      (P : A → Type 0) (f : S → List ℕ)
      → ((x : A) (rest : List ℕ) (s : S) → P x → f (put x rest s) ≡ f s ++ b x)
      → (xs : List A) (rest : List ℕ) (s : S) → All P xs
      → f (puts b put xs rest s) ≡ f s ++ concat_map b xs
  unfolding puts
  puts-bytes P f e [] rest s h = sym (append-nil (f s))
  puts-bytes P f e (x ∷ xs) rest s h =
      puts-bytes P f e xs rest (put x (concat_map b xs ++ rest) s) h.1
      ∙ ap (λ l. l ++ concat_map b xs) (e x (concat_map b xs ++ rest) s h.0)
      ∙ append_assoc (f s) (b x) (concat_map b xs)

pub all_rounds-le :
    {A : Type 0} (n : A → ℕ) (b : A → List ℕ) (P : A → Type 0)
    → ((x : A) → P x → n x ≤ length (b x))
    → (xs : List A) → All P xs
    → all_rounds n xs ≤ length (concat_map b xs)
unfolding all_rounds
all_rounds-le n b P le [] h = omega arith
all_rounds-le n b P le (x ∷ xs) h =
    omega (arith, le x h.0, all_rounds-le n b P le xs h.1, length-append (b x) (concat_map b xs))

pub one_round :
    (fuel pos : ℕ) (d rest : List ℕ) (s s' : Parsed) (skip : ℕ)
    → 0 < get_or d 0 0
    → read_item (d ++ rest) s ≡ some (s', skip)
    → get_or d 0 0 + skip ≡ length d
    → parse_loop (1 + fuel) pos (d ++ rest) s ≡ parse_loop fuel (pos + length d) rest s'
one_round fuel pos d rest s s' skip z e n =
    ap (λ f. parse_loop f pos (d ++ rest) s) {y = suc fuel} (omega arith)
    ∙ round fuel pos d rest s s' skip z e n
