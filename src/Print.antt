-- ===== src/Print.antt =====
-- Formatted printing: lib/print.c. What is given to `out` is the list of the bytes printed. A format and
-- a string are lists of the characters before their NUL. A buffer that is filled and then reversed in
-- place is a list and its reversal. Widths stay below 2 ^ 31.
pub mod Numbers
pub mod Tests
use buaa_os.Prelude.{
  ℕ, zero, suc, ◌+◌, ◌-◌, ◌*◌, ◌/◌, ◌%◌, ◌^◌, Bool, true, false, not, ◌&&◌, ◌||◌, Option, none,
  some, List, [], ◌∷◌, ◌++◌, length, take, drop, replicate, ltb, leb, ◌==◌, if◌then◌else◌,
}

pub reverse : List ℕ → List ℕ
reverse [] = []
reverse (x ∷ xs) = reverse xs ++ x ∷ []

pub print_char : ℕ → ℕ → Bool → List ℕ
print_char c width ladjust =
    let width' = if ltb width 1 then 1 else width in
    if ladjust then c ∷ replicate (width' - 1) b' ' else replicate (width' - 1) b' ' ++ c ∷ []

pub print_str : List ℕ → ℕ → Bool → List ℕ
print_str s width ladjust =
    let width' = if ltb width (length s) then length s else width in
    if ladjust
    then s ++ replicate (width' - length s) b' '
    else replicate (width' - length s) b' ' ++ s

abbrev pub digit_char : Bool → ℕ → ℕ
digit_char upcase t =
    if leb t 9 then b'0' + t else (if upcase then b'A' + t - 10 else b'a' + t - 10)

-- The digits of `u`, the lowest first. The fuel counts them.
digit_chars : ℕ → Bool → ℕ → ℕ → List ℕ
digit_chars zero upcase base u = []
digit_chars (suc fuel) upcase base u =
    let rest = digit_chars fuel upcase base (u / base) in
    digit_char upcase (u % base) ∷ (if u / base == 0 then [] else rest)

-- The buffer with its padding, before it is reversed.
padded : List ℕ → Bool → ℕ → Bool → ℕ → List ℕ
padded number neg_flag width ladjust padc =
    let buf = if neg_flag then number ++ b'-' ∷ [] else number in
    let width' = if ltb width (length buf) then length buf else width in
    if neg_flag && not ladjust && padc == b'0'
    then number ++ replicate (width' - length buf) padc ++ b'-' ∷ []
    else buf ++ replicate (width' - length buf) (if ladjust then b' ' else padc)

pub print_num : ℕ → ℕ → Bool → ℕ → Bool → ℕ → Bool → List ℕ
unfolding reverse digit_chars padded
print_num u base neg_flag width ladjust padc upcase =
    let number = digit_chars (u + 1) upcase base u in
    let buf = padded number neg_flag width ladjust padc in
    let actual = length number + (if neg_flag then 1 else 0) in
    if ladjust then reverse (take actual buf) ++ drop actual buf else reverse buf

-- An argument: an integer as its 32-bit pattern, or a string.
pub data Arg : Type 0 where
  int : ℕ → Arg
  str : List ℕ → Arg

abbrev pub is_digit : ℕ → Bool
is_digit c = leb b'0' c && leb c b'9'

-- The width, and what follows it.
get_width : ℕ → List ℕ → ℕ × List ℕ
get_width width [] = (width, [])
get_width width (c ∷ fmt) =
    let rest = get_width (width * 10 + c - b'0') fmt in
    if is_digit c then rest else (width, c ∷ fmt)

-- Whether the flag `c` is there, and what follows.
flag : ℕ → List ℕ → Bool × List ℕ
flag c [] = (false, [])
flag c (d ∷ fmt) = if d == c then (true, fmt) else (false, d ∷ fmt)

-- `va_arg`; `none` where the argument is missing or of the other kind.
with_int : (ℕ → List ℕ) → List Arg → Option (List ℕ × List Arg)
with_int f [] = none
with_int f (int n ∷ ap) = some (f n, ap)
with_int f (str s ∷ ap) = none

with_str : (List ℕ → List ℕ) → List Arg → Option (List ℕ × List Arg)
with_str f [] = none
with_str f (int n ∷ ap) = none
with_str f (str s ∷ ap) = some (f s, ap)

-- `num < 0` and `-num` for a signed number.
abbrev pub is_negative : ℕ → Bool
is_negative n = leb (2 ^ 31) n

abbrev pub magnitude : ℕ → ℕ
magnitude n = if is_negative n then 2 ^ 32 - n else n

-- The `switch` on the character `c` of a directive.
directive : ℕ → ℕ → Bool → ℕ → List Arg → Option (List ℕ × List Arg)
unfolding with_int with_str
directive c width ladjust padc ap =
    if c == b'b'
    then with_int (λ n. print_num n 2 false width ladjust padc false) ap
    else if c == b'd' || c == b'D'
    then with_int (λ n. print_num (magnitude n) 10 (is_negative n) width ladjust padc false) ap
    else if c == b'o' || c == b'O'
    then with_int (λ n. print_num n 8 false width ladjust padc false) ap
    else if c == b'u' || c == b'U'
    then with_int (λ n. print_num n 10 false width ladjust padc false) ap
    else if c == b'x'
    then with_int (λ n. print_num n 16 false width ladjust padc false) ap
    else if c == b'X'
    then with_int (λ n. print_num n 16 false width ladjust padc true) ap
    else if c == b'c'
    then with_int (λ n. print_char (n % 2 ^ 8) width ladjust) ap
    else if c == b's'
    then with_str (λ s. print_str s width ladjust) ap
    else some (c ∷ [], ap)

-- The flags, the width, and the `l`s, which do not matter: `int` and `long` have the same size.
abbrev pub Flags : Type 0
Flags = Bool × ℕ × ℕ × List ℕ

parse_flags : List ℕ → Flags
unfolding flag get_width
parse_flags fmt =
    let (ladjust, f1) = flag b'-' fmt in
    let (zeros, f2) = flag b'0' f1 in
    let (width, f3) = get_width 0 f2 in
    let (_, f4) = flag b'l' f3 in
    let (_, f5) = flag b'l' f4 in (ladjust, if zeros then b'0' else b' ', width, f5)

append_out : Option (List ℕ) → List ℕ → Option (List ℕ)
append_out none out = none
append_out (some rest) out = some (out ++ rest)

-- What follows a directive; `rest` is the loop from there on.
after_directive :
    (List ℕ → List Arg → Option (List ℕ)) → List ℕ → Option (List ℕ × List Arg) → Option (List ℕ)
unfolding append_out
after_directive rest fmt none = none
after_directive rest fmt (some (out, ap)) = append_out (rest fmt ap) out

after_flags : (List ℕ → List Arg → Option (List ℕ)) → Flags → List Arg → Option (List ℕ)
unfolding after_directive directive
after_flags rest (ladjust, padc, width, []) ap = some []
after_flags rest (ladjust, padc, width, c ∷ fmt) ap =
    after_directive rest fmt (directive c width ladjust padc ap)

-- The rounds are as many as the characters of the format, and one more.
vprintf_rounds : ℕ → List ℕ → List Arg → Option (List ℕ)
unfolding after_flags parse_flags
vprintf_rounds zero fmt ap = none
vprintf_rounds (suc fuel) [] ap = some []
vprintf_rounds (suc fuel) (c ∷ fmt) ap =
    if c == b'%'
    then after_flags (vprintf_rounds fuel) (parse_flags fmt) ap
    else append_out (vprintf_rounds fuel fmt ap) (c ∷ [])

pub vprintfmt : List ℕ → List Arg → Option (List ℕ)
unfolding vprintf_rounds
vprintfmt fmt ap = vprintf_rounds (length fmt + 1) fmt ap
