-- ===== src/Shell.antt =====
-- The tokens of a command line: `_gettoken` and `gettoken` of user/sh.c. The line lies in memory, a function
-- from addresses to bytes, and ends with a NUL; the loops have as many rounds as the buffer of `main` has bytes.
pub mod Scan
pub mod Stream
pub mod Tests
pub mod Tokens
use buaa_os.Prelude.{
  ℕ, zero, suc, ◌+◌, Bool, true, false, not, ◌||◌, Option, none, some, List, [], ◌∷◌, ◌++◌, ◌==◌,
  if◌then◌else◌, update,
}
use buaa_os.Prelude.Outcome.{
  Outcome, Cmd, done, fail, panic, pure, halt, ◌>>=◌, ◌>>◌, reads, modify, within,
}
use buaa_os.Bytes.{Bytes}

-- The string from the first `c` on.
pub strchr : List ℕ → ℕ → Option (List ℕ)
strchr [] c = none
strchr (d ∷ s) c = let rest = strchr s c in if d == c then some (d ∷ s) else rest

pub is_some : Option (List ℕ) → Bool
is_some none = false
is_some (some s) = true

abbrev pub has : List ℕ → ℕ → Bool
has s c = is_some (strchr s c)

-- WHITESPACE and SYMBOLS
abbrev pub whitespace : List ℕ
whitespace = b' ' ∷ 9 ∷ 13 ∷ 10 ∷ []

abbrev pub symbols : List ℕ
symbols = b'<' ∷ b'|' ∷ b'>' ∷ b'&' ∷ b';' ∷ b'(' ∷ b')' ∷ []

-- The size of `buf`.
abbrev pub line_max : ℕ
line_max = 1024

abbrev pub byte_at : ℕ → Cmd Bytes ℕ
byte_at s = reads λ m. m s

abbrev pub clear_byte : ℕ → Cmd Bytes (Unit {0})
clear_byte s = modify λ m. update m s 0

-- `while (strchr(WHITESPACE, *s)) *s++ = 0;`
pub skip_white : ℕ → ℕ → Cmd Bytes ℕ
skip_white zero s = halt
skip_white (suc rounds) s =
    let rest = skip_white rounds (s + 1) in
    do c ← byte_at s; if has whitespace c then (do clear_byte s; rest) else pure s

-- The loops that only move `s`.
pub scan : (ℕ → Bool) → ℕ → ℕ → Cmd Bytes ℕ
scan stop zero s = halt
scan stop (suc rounds) s =
    let rest = scan stop rounds (s + 1) in do c ← byte_at s; if stop c then pure s else rest

abbrev pub ends_quote : ℕ → Bool
ends_quote c = c == 0 || c == b'"'

abbrev pub ends_word : ℕ → Bool
ends_word c = c == 0 || has (whitespace ++ symbols) c

-- The value of `_gettoken`, `*p1` and `*p2`.
pub record Token : Type 0 where
  pub kind : ℕ
  pub p1 : ℕ
  pub p2 : ℕ

abbrev pub token : ℕ → ℕ → ℕ → Token
token c a b = record { kind = c; p1 = a; p2 = b }

pub quoted : ℕ → Cmd Bytes Token
quoted s = do
  clear_byte s
  e ← scan ends_quote line_max (s + 1)
  c ← byte_at e
  if c == 0 then pure (token 0 (s + 1) 0) else do clear_byte e; pure (token b'w' (s + 1) (e + 1))

pub bare : ℕ → Cmd Bytes Token
bare s = do e ← scan ends_word line_max s; pure (token b'w' s e)

pub token_at : ℕ → ℕ → Cmd Bytes Token
token_at s c =
    if c == 0
    then pure (token 0 0 0)
    else if c == b'"'
    then quoted s
    else if has symbols c
    then (do clear_byte s; pure (token c s (s + 1)))
    else bare s

-- `_gettoken(s, &p1, &p2)`
pub next_token : ℕ → Cmd Bytes Token
next_token s =
    if s == 0
    then pure (token 0 0 0)
    else do start ← skip_white line_max s; c ← byte_at start; token_at start c

-- The static variables of `gettoken`, `next` with `nc`, `np1` and `np2`, and the memory.
pub record Lexer : Type 0 where
  pub next : Token
  pub memory : Bytes

abbrev pub look_ahead : ℕ → Cmd Lexer Token
look_ahead s = within (λ (l : Lexer). l.memory) (λ l m. record l { memory = m }) (next_token s)

-- `gettoken(s, 0)` of a line: the first token is read ahead.
pub start_line : ℕ → Cmd Lexer (Unit {0})
start_line s = do t ← look_ahead s; modify λ l. record l { next = t }

-- `gettoken(0, &p1)`: the value, and `*p1`.
pub gettoken : Cmd Lexer (ℕ × ℕ)
gettoken = do
  t ← reads λ l. l.next
  n ← look_ahead t.p2
  modify λ l. record l { next = n }
  pure (t.kind, t.p1)
