-- ===== src/Shell/Stream.antt =====
-- `gettoken` of user/sh.c reads one token ahead.
use buaa_os.Prelude.{ℕ, ◌+◌, ◌<◌, ◌≤◌, ◌≡◌, ◌≢◌, inr, ◌∙◌, arith}
use native.Mathlib.Nat.{le_refl}
use buaa_os.Prelude.Outcome.{Returns, Returns-bind, lift-Ends}
use buaa_os.Bytes.{Bytes}
use buaa_os.Shell.{line_max, Token, next_token, Lexer, start_line, look_ahead}
use buaa_os.Shell.Tokens.{Word, Lexes, next_token-Lexes}

-- A string that starts at `a` and ends with a NUL.
abbrev pub IsString : ℕ → Bytes → Type 0
IsString a m = (q : ℕ) × (a ≤ q) × ((j : ℕ) → a ≤ j → j < q → m j ≢ 0) × (m q ≡ 0)

-- The line ends at `e`, and the token that was read ahead lies before it.
pub record Line (e : ℕ) (l : Lexer) : Type 0 where
  pub end : l.memory e ≡ 0
  pub place : l.next.kind ≢ 0 → (l.next.p2 ≢ 0) × (l.next.p2 ≤ e) × (e < l.next.p2 + line_max)
  pub over : l.next.kind ≡ 0 → l.next.p2 ≡ 0
  pub pending : l.next.kind ≡ b'w' → (q : ℕ) × Word l.next.p1 q l.next.p2 l.memory

module _ (e : ℕ) (l : Lexer) (line : Line e l) where
  -- What `gettoken` leaves, and what it gives: the token that was read ahead. A word is a string now, and the next
  -- token ends further on.
  pub record Given (l' : Lexer) : Type 0 where
    pub next_line : Line e l'
    pub string : l.next.kind ≡ b'w' → IsString l.next.p1 l'.memory
    pub further : l'.next.kind ≢ 0 → l.next.p2 < l'.next.p2

  abbrev lexer : Token → Bytes → Lexer
  lexer n m = record { next = n; memory = m }

-- `gettoken(s, 0)` makes the line ready.
pub start_line-Line :
    (e s : ℕ) (l : Lexer)
    → s ≢ 0
    → s ≤ e
    → e < s + line_max
    → l.memory e ≡ 0
    → Returns (λ _ l'. Line e l') (start_line s l)
unfolding start_line
start_line-Line e s l ne low high nul =
    Returns-bind (λ n l'. Line e (record l' { next = n })) _ (look_ahead s l) _
      (lift-Ends (λ n m. Lexes e s l.memory n m) (λ e s. ⊥)
        (λ n l'. Line e (record l' { next = n })) (λ e s. ⊥) (λ m. record l { memory = m })
        (next_token s l.memory) (next_token-Lexes e s l.memory ne low high nul)
        (λ n m k. record {
          end = k.kept e (inr (le_refl e)) ∙ nul;
          place = λ some_token.
              let p = k.progress some_token in (ground (arith, p.0), p.1, omega (arith, high, p.0));
          over = k.ended;
          pending = k.word;
        })
        (λ e s z. z))
      (λ n l' k. k)
