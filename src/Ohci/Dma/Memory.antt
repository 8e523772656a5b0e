-- ===== src/Ohci/Dma/Memory.antt =====
-- What successful accesses read and write.
use usbqemu_wheel.Common.{
  ℕ, zero, suc, ◌+◌, ◌*◌, ◌<◌, ◌≡◌, ◌≢◌, refl, sym, ap, ◌∙◌, ◌⊎◌, inl, inr, Bool, true, false,
  Option, none, some, List, [], ◌∷◌, ◌++◌, leb, if◌then◌else◌, take, drop, write_at,
  write_at-append, get_or, le_bytes, le_value, length, length-le_bytes, arith, OnSome, option_both,
  Bool-cases, if_when, if_unless, AreBytes, append-AreBytes, le_bytes-AreBytes,
}
use Prim.{tt}
use native.Mathlib.Numerals.{unary_clauses}
use usbqemu_wheel.Usb.Device.{Class}
use usbqemu_wheel.Ohci.Td.{memory_end}
use usbqemu_wheel.Ohci.Dma.{
  Host, IsoTd, Access, get, put, refuse, ohci_read_iso_td, ohci_put_iso_td,
}

distinct : true ≢ false
distinct = λ g. cc

-- Numbers of `size` bytes, one behind the other.
abbrev pub flat : ℕ → List ℕ → List ℕ
flat size [] = []
flat size (x ∷ xs) = le_bytes size x ++ flat size xs

pub flat-AreBytes : (size : ℕ) (xs : List ℕ) → AreBytes (flat size xs)
flat-AreBytes size [] = tt
flat-AreBytes size (x ∷ xs) =
    append-AreBytes (le_bytes size x) (flat size xs) (le_bytes-AreBytes size x)
      (flat-AreBytes size xs)

-- `n` values were read from `addr` on.
pub record Fetched {D : Type 0} (size : ℕ) (h : Host D) (addr n : ℕ) (host : Host D) (l : List ℕ)
    : Type 0 where
  pub same : host ≡ h
  pub count : length l ≡ n
  pub inside : (n ≡ 0) ⊎ (addr + size * n < memory_end)
  pub values : (i : ℕ) → i < n → get_or l i 0 ≡ le_value (take size (drop (addr + size * i) h.ram))

module _ {D : Type 0} (k : Class D) where
  pub get-Fetched :
      (size : ℕ) (h : Host D) (addr n : ℕ)
      → OnSome
          (λ l. Fetched size h addr n (get k size h addr n).host l)
          (get k size h addr n).result
  unfolding get refuse
  get-Fetched size h addr zero = record {
    same = refl;
    count = refl;
    inside = inl refl;
    values = λ i l. absurd (omega arith);
  }
  get-Fetched size h addr (suc n) = elim (Bool-cases (leb memory_end (addr + size))) [
    | inl e ↦ if_when P _ e tt
    | inr e ↦ if_unless P _ e (
        option_both (OnSome (λ l. Fetched size h addr (suc n) rest.host l))
          (λ l. Fetched size h (addr + size) n rest.host l) rest.result none
          (λ xs. some (le_value (take size (drop addr h.ram)) ∷ xs))
          (get-Fetched size h (addr + size) n) tt
          (λ xs f. record {
            same = f.same;
            count = ap suc f.count;
            inside = inr (further e f.inside);
            values = value xs f;
          }))
  ]
    where
      P : Access D (Option (List ℕ)) → Type 0
      P a = OnSome (λ l. Fetched size h addr (suc n) a.host l) a.result

      rest : Access D (Option (List ℕ))
      rest = get k size h (addr + size) n

      further :
          leb memory_end (addr + size) ≡ false
          → (n ≡ 0) ⊎ (addr + size + size * n < memory_end)
          → addr + size * suc n < memory_end
      further e (inl z) = simp unary_clauses (ground (arith, e, ap (λ j. size * j) z))
      further e (inr l) = simp unary_clauses (omega (arith, l))

      value :
          (xs : List ℕ)
          → Fetched size h (addr + size) n rest.host xs
          → (i : ℕ) → i < suc n
          → get_or (le_value (take size (drop addr h.ram)) ∷ xs) i 0
            ≡ le_value (take size (drop (addr + size * i) h.ram))
      value xs f zero l = ap (λ j. le_value (take size (drop j h.ram))) (omega arith)
      value xs f (suc i) l =
          f.values i (omega arith)
          ∙ ap (λ j. le_value (take size (drop j h.ram))) (simp unary_clauses (omega arith))

  pub put-flat :
      (size : ℕ) (h : Host D) (addr : ℕ) (xs : List ℕ)
      → ((put k size h addr xs).result ≡ false)
        ⊎ ((put k size h addr xs).host ≡ record h { ram = write_at h.ram addr (flat size xs) })
  unfolding put refuse
  put-flat size h addr [] = inr refl
  put-flat size h addr (x ∷ xs) = elim (Bool-cases (leb memory_end (addr + size))) [
    | inl e ↦ inl (if_when (λ (a : Access D Bool). a.result ≡ false) _ e refl)
    | inr e ↦
        if_unless
          (λ (a : Access D Bool).
            (a.result ≡ false)
            ⊎ (a.host ≡ record h { ram = write_at h.ram addr (le_bytes size x ++ flat size xs) }))
          _ e
          (joined (
            put-flat size (record h { ram = write_at h.ram addr (le_bytes size x) }) (addr + size)
              xs))
  ]
    where
      joined :
          ((put k size
                (record h { ram = write_at h.ram addr (le_bytes size x) })
                (addr + size)
                xs).result
              ≡ false)
            ⊎ ((put k size
                  (record h { ram = write_at h.ram addr (le_bytes size x) })
                  (addr + size)
                  xs).host
                ≡ record h {
                  ram =
                      write_at (write_at h.ram addr (le_bytes size x)) (addr + size) (flat size xs);
                })
          → ((put k size
                (record h { ram = write_at h.ram addr (le_bytes size x) })
                (addr + size)
                xs).result
              ≡ false)
            ⊎ ((put k size
                  (record h { ram = write_at h.ram addr (le_bytes size x) })
                  (addr + size)
                  xs).host
                ≡ record h { ram = write_at h.ram addr (le_bytes size x ++ flat size xs) })
      joined (inl e) = inl e
      joined (inr e) = inr (
          e
          ∙ ap (λ r. record h { ram = r })
              (ap (λ j. write_at (write_at h.ram addr (le_bytes size x)) j (flat size xs))
                  (omega (arith, length-le_bytes size x))
                ∙ write_at-append h.ram (le_bytes size x) (flat size xs) addr))

-- An isochronous descriptor in memory.
abbrev pub iso_bytes : IsoTd → List ℕ
iso_bytes td = flat 4 (td.flags ∷ td.bp ∷ td.next ∷ td.be ∷ []) ++ flat 2 td.offset

pub record IsRead {D : Type 0} (h : Host D) (addr : ℕ) (host : Host D) (td : IsoTd) : Type 0 where
  pub same : host ≡ h
  pub inside : addr + 32 < memory_end
  pub eight : length td.offset ≡ 8
  pub flags_are : td.flags ≡ le_value (take 4 (drop addr h.ram))
  pub second_is : get_or td.offset 1 0 ≡ le_value (take 2 (drop (addr + 18) h.ram))

module _ {D : Type 0} (k : Class D) where
  pub ohci_read_iso_td-IsRead :
      (h : Host D) (addr : ℕ)
      → OnSome
          (λ td. IsRead h addr (ohci_read_iso_td k h addr).host td)
          (ohci_read_iso_td k h addr).result
  unfolding ohci_read_iso_td
  ohci_read_iso_td-IsRead h addr =
      let r = get k 4 h addr 4 in
      let w = get k 2 r.host (addr + 16) 8 in
      option_both (λ (a : Access D (Option IsoTd)). OnSome (λ td. IsRead h addr a.host td) a.result)
        (λ l. Fetched 4 h addr 4 r.host l) r.result (record { host = r.host; result = none }) _
        (get-Fetched k 4 h addr 4) tt
        (λ l f.
          option_both (OnSome (λ td. IsRead h addr w.host td))
            (λ o. Fetched 2 r.host (addr + 16) 8 w.host o) w.result none
            (λ o. some (record {
              flags = get_or l 0 0;
              bp = get_or l 1 0;
              next = get_or l 2 0;
              be = get_or l 3 0;
              offset = o;
            }))
            (get-Fetched k 2 r.host (addr + 16) 8) tt
            (λ o g. record {
              same = g.same ∙ f.same;
              inside = within g.inside;
              eight = g.count;
              flags_are =
                  f.values 0 (omega arith)
                  ∙ ap (λ i. le_value (take 4 (drop i h.ram))) (omega arith);
              second_is =
                  g.values 1 (omega arith)
                  ∙ ap (λ (h' : Host D). le_value (take 2 (drop (addr + 16 + 2 * 1) h'.ram))) f.same
                  ∙ ap (λ i. le_value (take 2 (drop i h.ram))) (omega arith);
            }))
    where
      within : (◌≡◌ {A = ℕ} 8 0) ⊎ (addr + 16 + 2 * 8 < memory_end) → addr + 32 < memory_end
      within (inl e) = absurd (omega arith)
      within (inr l) = omega arith

  -- Dwords and then words.
  two : Host D → ℕ → List ℕ → ℕ → List ℕ → Access D Bool
  two h addr xs m ys =
      let r = put k 4 h addr xs in if r.result then put k 2 r.host (addr + m) ys else r

  Stored : Host D → ℕ → List ℕ → Access D Bool → Type 0
  Stored h addr bytes a =
      (a.result ≡ false) ⊎ (a.host ≡ record h { ram = write_at h.ram addr bytes })

  two-Stored :
      (h : Host D) (addr : ℕ) (xs : List ℕ) (m : ℕ) (ys : List ℕ)
      → length (flat 4 xs) ≡ m
      → Stored h addr (flat 4 xs ++ flat 2 ys) (two h addr xs m ys)
  unfolding two Stored
  two-Stored h addr xs m ys e = elim (Bool-cases r.result) [
    | inr f ↦
        if_unless (Stored h addr (flat 4 xs ++ flat 2 ys)) (put k 2 r.host (addr + m) ys) f (inl f)
    | inl f ↦
        if_when (Stored h addr (flat 4 xs ++ flat 2 ys)) r f
          (second (put-flat k 4 h addr xs) f (put-flat k 2 r.host (addr + m) ys))
  ]
    where
      r : Access D Bool
      r = put k 4 h addr xs

      second :
          Stored h addr (flat 4 xs) r
          → r.result ≡ true
          → Stored r.host (addr + m) (flat 2 ys) (put k 2 r.host (addr + m) ys)
          → Stored h addr (flat 4 xs ++ flat 2 ys) (put k 2 r.host (addr + m) ys)
      second (inl a) b c = absurd (distinct (sym b ∙ a))
      second (inr a) b (inl c) = inl c
      second (inr a) b (inr c) = inr (
          c
          ∙ ap (λ (h' : Host D). record h' { ram = write_at h'.ram (addr + m) (flat 2 ys) }) a
          ∙ ap (λ l. record h { ram = l })
              (ap (λ j. write_at (write_at h.ram addr (flat 4 xs)) j (flat 2 ys)) (omega (arith, e))
                ∙ write_at-append h.ram (flat 4 xs) (flat 2 ys) addr))

  pub put_iso_td-bytes :
      (h : Host D) (addr : ℕ) (td : IsoTd)
      → ((ohci_put_iso_td k h addr td).result ≡ false)
        ⊎ ((ohci_put_iso_td k h addr td).host
            ≡ record h { ram = write_at h.ram addr (iso_bytes td) })
  unfolding ohci_put_iso_td two Stored
  put_iso_td-bytes h addr td =
      two-Stored h addr (td.flags ∷ td.bp ∷ td.next ∷ td.be ∷ []) 16 td.offset refl
