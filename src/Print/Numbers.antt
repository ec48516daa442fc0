-- ===== src/Print/Numbers.antt =====
-- Numbers that lib/print.c prints can be read back.
use buaa_os.Prelude.{
  ℕ, zero, suc, ◌+◌, ◌-◌, ◌*◌, ◌/◌, ◌%◌, ◌<◌, ◌≡◌, ◌⊎◌, inl, inr, refl, Bool, true, false, List, [],
  ◌∷◌, ◌++◌, arith, replicate, leb, ◌==◌, if◌then◌else◌, Bool-cases, ap, sym, ◌∙◌,
}
use buaa_os.Print.{reverse, digit_char, digit_chars, padded, print_num}

-- What a digit stands for.
abbrev pub digit_value : ℕ → ℕ
digit_value c =
    if leb b'a' c then c + 10 - b'a' else (if leb b'A' c then c + 10 - b'A' else c - b'0')

-- The number that a sequence of digits stands for, the highest first, behind the number `acc`.
abbrev pub read_from : ℕ → ℕ → List ℕ → ℕ
read_from base acc [] = acc
read_from base acc (c ∷ cs) = read_from base (acc * base + digit_value c) cs

-- The same for the lowest first.
abbrev lowest_first : ℕ → List ℕ → ℕ
lowest_first base [] = 0
lowest_first base (c ∷ cs) = lowest_first base cs * base + digit_value c

read_from-append :
    (base acc : ℕ) (xs : List ℕ) (c : ℕ)
    → read_from base acc (xs ++ c ∷ []) ≡ read_from base acc xs * base + digit_value c
read_from-append base acc [] c = refl
read_from-append base acc (x ∷ xs) c = read_from-append base (acc * base + digit_value x) xs c

read_from-reverse : (base : ℕ) (xs : List ℕ) → read_from base 0 (reverse xs) ≡ lowest_first base xs
unfolding reverse
read_from-reverse base [] = refl
read_from-reverse base (x ∷ xs) =
    read_from-append base 0 (reverse xs) x ∙ rw (read_from-reverse base xs) refl

-- Zeros before a number do not count.
lowest_first-padded :
    (base k : ℕ) (xs : List ℕ) → lowest_first base (xs ++ replicate k b'0') ≡ lowest_first base xs
lowest_first-padded base zero [] = refl
lowest_first-padded base (suc k) [] = rw (lowest_first-padded base k []) (omega arith)
lowest_first-padded base k (x ∷ xs) = rw (lowest_first-padded base k xs) refl

digit_value-digit_char : (upcase : Bool) (t : ℕ) → t < 16 → digit_value (digit_char upcase t) ≡ t
digit_value-digit_char true t l = ground arith
digit_value-digit_char false t l = ground arith

-- The bases that the directives use.
abbrev pub IsBase : ℕ → Type 0
IsBase base = (base ≡ 2) ⊎ (base ≡ 8) ⊎ (base ≡ 10) ⊎ (base ≡ 16)

module _ (upcase : Bool) (base : ℕ) (small : (u : ℕ) → u % base < 16)
    (parts : (u : ℕ) → u / base * base + u % base ≡ u)
    (smaller : (u : ℕ) → 0 < u / base → u / base < u) where
  lowest_first-digit_chars :
      (fuel u : ℕ) → u < fuel → lowest_first base (digit_chars fuel upcase base u) ≡ u
  unfolding digit_chars
  lowest_first-digit_chars zero u l = absurd (omega arith)
  lowest_first-digit_chars (suc fuel) u l =
      let digit = digit_value-digit_char upcase (u % base) (small u) in
      elim (Bool-cases (u / base == 0)) [
        | inl last ↦
            let none_above : u / base ≡ 0 = ground arith in
            rw (last, digit) (sym (ap (λ (t : ℕ). t * base + u % base) none_above) ∙ parts u)
        | inr more ↦
            let below : u / base < fuel = omega (arith, smaller u (ground arith)) in
            rw (more, digit, lowest_first-digit_chars fuel (u / base) below) (parts u)
      ]

  read_number :
      (u width : ℕ) → read_from base 0 (print_num u base false width false b'0' upcase) ≡ u
  unfolding print_num padded
  read_number u width =
      read_from-reverse base _
      ∙ lowest_first-padded base _ (digit_chars (u + 1) upcase base u)
      ∙ lowest_first-digit_chars (u + 1) u (omega arith)

-- A number that `print_num` prints without a sign, padded with zeros to any width, in base 2, 8, 10 or
-- 16, with small or capital digits, reads back as the same number.
pub read_from-print_num :
    (u base width : ℕ) (upcase : Bool)
    → IsBase base
    → read_from base 0 (print_num u base false width false b'0' upcase) ≡ u
read_from-print_num u base width upcase (inl e) =
    rw e (read_number upcase 2 (λ u. omega arith) (λ u. omega arith) (λ u h. omega arith) u width)
read_from-print_num u base width upcase (inr (inl e)) =
    rw e (read_number upcase 8 (λ u. omega arith) (λ u. omega arith) (λ u h. omega arith) u width)
read_from-print_num u base width upcase (inr (inr (inl e))) =
    rw e (read_number upcase 10 (λ u. omega arith) (λ u. omega arith) (λ u h. omega arith) u width)
read_from-print_num u base width upcase (inr (inr (inr e))) =
    rw e (read_number upcase 16 (λ u. omega arith) (λ u. omega arith) (λ u h. omega arith) u width)
