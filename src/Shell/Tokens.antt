-- ===== src/Shell/Tokens.antt =====
-- What `_gettoken` and `gettoken` of user/sh.c give.
use buaa_os.Prelude.{
  ℕ, ◌+◌, ◌<◌, ◌≤◌, ◌≡◌, ◌≢◌, ◌⊎◌, inl, inr, refl, sym, ap, ◌∙◌, Bool, true, false, ◌||◌, arith,
  ◌==◌, ==_eq, ==_ne, ltb, update, Bool-cases, subst, ◌++◌, List, [], ◌∷◌, if◌then◌else◌,
}
use native.Mathlib.Nat.{le_refl}
use buaa_os.Prelude.Outcome.{Returns, Returns-mono, Returns-bind}
use buaa_os.Bytes.{Bytes}
use buaa_os.Shell.{
  strchr, is_some, has, whitespace, symbols, line_max, skip_white, scan, ends_quote, ends_word,
  Token, token, quoted, bare, token_at, next_token,
}
use buaa_os.Shell.Scan.{Skipped, skip_white-Skipped, Stops, scan-Stops, others}

-- The characters from `a` to `q` are no NULs; there the string ends, or the next token does away with what is there.
abbrev pub Word : ℕ → ℕ → ℕ → Bytes → Type 0
Word a q b m =
    (a ≤ q)
    × ((j : ℕ) → a ≤ j → j < q → m j ≢ 0)
    × (((q ≡ b) × (ends_word (m q) ≡ true)) ⊎ ((q < b) × (m q ≡ 0)))

-- From `a` to `q` the line has no character that stops, and those characters are left as they were.
abbrev pub Runs : (ℕ → Bool) → ℕ → ℕ → Bytes → Bytes → Type 0
Runs stop a q m m' = (j : ℕ) → a ≤ j → j < q → (stop (m j) ≡ false) × (m' j ≡ m j)

-- A quote at `a`: the word up to the next quote, at `q`, or none where the line ends before there is one.
abbrev pub Quoted : ℕ → Bytes → Token → Bytes → Type 0
Quoted a m t m' =
    (q : ℕ) × ((a < q)
      × Runs ends_quote (a + 1) q m m'
      × (((m q ≡ 0) × (t ≡ token 0 (a + 1) 0))
          ⊎ ((m q ≡ b'"') × (t ≡ token b'w' (a + 1) (q + 1)) × (m' q ≡ 0))))

-- A word from `a` up to the next white space, symbol or end, at `q`.
abbrev pub Plain : ℕ → Bytes → Token → Bytes → Type 0
Plain a m t m' =
    (q : ℕ) × ((a < q) × Runs ends_word a q m m' × (ends_word (m q) ≡ true) × (t ≡ token b'w' a q))

-- The token that starts at `a` with the character `c`: none at the end of the string, and a symbol is itself.
abbrev pub Chosen : ℕ → ℕ → Bytes → Token → Bytes → Type 0
Chosen c a m t m' =
    if c == 0
    then t ≡ token 0 0 0
    else if c == b'"'
    then Quoted a m t m'
    else if has symbols c
    then t ≡ token c a (a + 1)
    else Plain a m t m'

-- The same of a line that has the same characters from `a` on.
right_kind :
    (c a : ℕ) (m m1 : Bytes) (t : Token) (m' : Bytes)
    → ((j : ℕ) → a ≤ j → m1 j ≡ m j)
    → Chosen c a m1 t m'
    → Chosen c a m t m'
right_kind c a m m1 t m' same = elim (Bool-cases (c == 0)) [
  | inl z ↦ rw z (λ h. h)
  | inr nz ↦ elim (Bool-cases (c == b'"')) [
    | inl quote ↦
        rw (nz, quote)
          (λ (q, (more, run, end)).
            (q, (more, agree ends_quote (a + 1) q (omega arith) run, closing q (omega arith) end)))
    | inr other ↦ elim (Bool-cases (has symbols c)) [
      | inl special ↦ rw (nz, other, special) (λ h. h)
      | inr plain ↦
          rw (nz, other, plain)
            (λ (q, (more, run, stop, e)). (
              q,
              (
                more,
                agree ends_word a q (omega arith) run,
                ap ends_word (sym (same q (omega arith))) ∙ stop,
                e,
              ),
            ))
    ]
  ]
]
  where
    agree : (stop : ℕ → Bool) (b q : ℕ) → a ≤ b → Runs stop b q m1 m' → Runs stop b q m m'
    agree stop b q low run j l k =
        let here = same j (omega arith) in
        (ap stop (sym here) ∙ (run j l k).0, (run j l k).1 ∙ here)

    closing :
        (q : ℕ)
        → a ≤ q
        → ((m1 q ≡ 0) × (t ≡ token 0 (a + 1) 0))
          ⊎ ((m1 q ≡ b'"') × (t ≡ token b'w' (a + 1) (q + 1)) × (m' q ≡ 0))
        → ((m q ≡ 0) × (t ≡ token 0 (a + 1) 0))
          ⊎ ((m q ≡ b'"') × (t ≡ token b'w' (a + 1) (q + 1)) × (m' q ≡ 0))
    closing q low (inl (z, e)) = inl (sym (same q low) ∙ z, e)
    closing q low (inr (z, e, n)) = inr (sym (same q low) ∙ z, e, n)

-- The token is chosen by the first character from `s` on that is no white space.
abbrev pub First : ℕ → Bytes → Token → Bytes → Type 0
First s m t m' =
    (a : ℕ) × ((s ≤ a)
      × ((j : ℕ) → s ≤ j → j < a → has whitespace (m j) ≡ true)
      × (has whitespace (m a) ≡ false)
      × Chosen (m a) a m t m')

-- The token `t` of a line in `m` that ends at `e`, read from `s` on, with the memory `m'` behind it.
pub record Lexes (e s : ℕ) (m : Bytes) (t : Token) (m' : Bytes) : Type 0 where
  pub first : First s m t m'
  pub kept : (j : ℕ) → (j < s) ⊎ (e ≤ j) → m' j ≡ m j
  pub start : ends_word (m s) ≡ true → m' s ≡ 0
  pub ended : t.kind ≡ 0 → t.p2 ≡ 0
  pub progress : t.kind ≢ 0 → (s < t.p2) × (t.p2 ≤ e)
  pub word : t.kind ≡ b'w' → (q : ℕ) × Word t.p1 q t.p2 m'

not_nul : (stop : ℕ → Bool) → stop 0 ≡ true → (c : ℕ) → stop c ≡ false → c ≢ 0
not_nul stop nul c passed z =
    let clash : stop 0 ≡ false = subst (λ d. stop d ≡ false) z passed in absurd (ground arith)

no_quote : {c : ℕ} → c ≡ b'"' → ends_word c ≡ true → ⊥
unfolding strchr is_some
no_quote quote special =
    let clash : ends_word b'"' ≡ true = subst (λ c. ends_word c ≡ true) quote special in
    ground arith

no_word : {c : ℕ} → c ≡ b'w' → has symbols c ≡ true → ⊥
unfolding strchr is_some
no_word w special =
    let clash : has symbols b'w' ≡ true = subst (λ c. has symbols c ≡ true) w special in
    ground arith

has-append : (s t : List ℕ) (c : ℕ) → has (s ++ t) c ≡ (has s c || has t c)
unfolding strchr is_some
has-append [] t c = refl
has-append (d ∷ s) t c = elim (Bool-cases (d == c)) [
  | inl e ↦ rw e refl
  | inr e ↦ rw e (has-append s t c)
]

ordinary :
    (c : ℕ)
    → c == 0 ≡ false
    → has whitespace c ≡ false
    → has symbols c ≡ false
    → ends_word c ≡ false
ordinary c nz no_white plain = ground (arith, has-append whitespace symbols c)

outer : {s e j : ℕ} → s < e → (j < s) ⊎ (e ≤ j) → (j < s) ⊎ (s + 1 ≤ j)
outer more (inl l) = inl l
outer more (inr l) = inr (omega arith)

-- What is read at `s` itself, where there is no white space.
module _ (e s : ℕ) (m : Bytes) (low : s ≤ e) (high : e < s + line_max) (nul : m e ≡ 0) where
  inside : m s ≢ 0 → s < e
  inside ne = elim (Bool-cases (s == e)) [
    | inl z ↦ absurd (ne (subst (λ j. m j ≡ 0) (sym (==_eq s e z)) nul))
    | inr nz ↦ ground arith
  ]

  at_start :
      (t : Token) (m' : Bytes)
      → has whitespace (m s) ≡ false
      → Chosen (m s) s m t m'
      → First s m t m'
  at_start t m' no_white h = (s, (le_refl s, (λ j l k. absurd (omega arith)), no_white, h))

  bare-Lexes :
      m s ≢ 0
      → m s ≢ b'"'
      → has symbols (m s) ≡ false
      → has whitespace (m s) ≡ false
      → ends_word (m s) ≡ false
      → Returns (λ t m'. Lexes e s m t m') (bare s m)
  unfolding bare
  bare-Lexes ne no_quote_here no_symbol no_white plain =
      Returns-bind (λ q m'. Stops ends_word e s m q m') _ (scan ends_word line_max s m) _
        (scan-Stops ends_word line_max e s m refl (low, high, nul))
        (λ q m' h.
          let more : s < q = apart q h.starts h.stopped in
          record {
            first = at_start (token b'w' s q) m' no_white (
                rw (==_ne (m s) 0 ne, ==_ne (m s) b'"' no_quote_here, no_symbol)
                  (
                    q,
                    (more, (λ j l k. (h.passed j l k, ap (λ f. f j) h.unchanged)), h.stopped, refl),
                  ));
            kept = λ j out. ap (λ f. f j) h.unchanged;
            start = λ special. absurd (ground arith);
            ended = λ z. absurd (omega arith);
            progress = λ z. (more, h.within_line);
            word = λ z. (
              q,
              (
                h.starts,
                (λ j l k. rw h.unchanged (not_nul ends_word refl (m j) (h.passed j l k))),
                inl (refl, rw h.unchanged h.stopped),
              ),
            );
          })
    where
      apart : (q : ℕ) → s ≤ q → ends_word (m q) ≡ true → s < q
      apart q l special = elim (Bool-cases (s == q)) [
        | inl z ↦
            let clash : ends_word (m s) ≡ true =
              subst (λ j. ends_word (m j) ≡ true) (sym (==_eq s q z)) special in
            absurd (ground arith)
        | inr nz ↦ ground arith
      ]

  -- After an opening quote.
  abbrev opened : Bytes
  opened = update m s 0

  quote_white : m s ≡ b'"' → has whitespace (m s) ≡ false
  unfolding is_some strchr
  quote_white quote = ap (has whitespace) quote

  runs :
      (q : ℕ) (m' : Bytes) → Stops ends_quote e (s + 1) opened q m' → Runs ends_quote (s + 1) q m m'
  runs q m' h j l k =
      let same : opened j ≡ m j = others m s j 0 (inr (omega arith)) in
      (sym (ap ends_quote same) ∙ h.passed j l k, ap (λ f. f j) h.unchanged ∙ same)

  same_at : (q : ℕ) (m' : Bytes) → Stops ends_quote e (s + 1) opened q m' → m' q ≡ m q
  same_at q m' h = ap (λ f. f q) h.unchanged ∙ others m s q 0 (inr h.starts)

  closing : (q : ℕ) (m' : Bytes) → Stops ends_quote e (s + 1) opened q m' → m' q ≢ 0 → m q ≡ b'"'
  closing q m' h ne =
      let here = same_at q m' h in
      let stop : ends_quote (m q) ≡ true =
        ap ends_quote (sym (others m s q 0 (inr h.starts))) ∙ h.stopped in
      ground (arith, here, stop)

  before_quote :
      (q : ℕ) (m' : Bytes)
      → Stops ends_quote e (s + 1) opened q m'
      → Runs ends_quote (s + 1) q m (update m' q 0)
  before_quote q m' h j l k =
      ((runs q m' h j l k).0, others m' q j 0 (inl k) ∙ (runs q m' h j l k).1)

  unclosed :
      (q : ℕ) (m' : Bytes)
      → m s ≡ b'"'
      → Stops ends_quote e (s + 1) opened q m'
      → m' q ≡ 0
      → Lexes e s m (token 0 (s + 1) 0) m'
  unclosed q m' quote h z = record {
    first = at_start (token 0 (s + 1) 0) m' (quote_white quote) (
        rw quote (q, (omega (arith, h.starts), runs q m' h, inl (sym (same_at q m' h) ∙ z, refl))));
    kept = λ j out. ap (λ f. f j) h.unchanged ∙ others m s j 0 (outer (inside (ground arith)) out);
    start = λ special. absurd (no_quote quote special);
    ended = λ z. refl;
    progress = λ z. absurd (z refl);
    word = λ z. absurd (omega arith);
  }

  closed_at :
      (q : ℕ) (m' : Bytes)
      → m s ≡ b'"'
      → Stops ends_quote e (s + 1) opened q m'
      → m' q ≢ 0
      → Lexes e s m (token b'w' (s + 1) (q + 1)) (update m' q 0)
  closed_at q m' quote h ne =
      let more : s < e = inside (ground arith) in
      let at_end : m' e ≡ 0 =
        ap (λ f. f e) h.unchanged ∙ (others m s e 0 (inr (omega arith)) ∙ nul) in
      let before : q < e = lower at_end in
      record {
        first = at_start (token b'w' (s + 1) (q + 1)) (update m' q 0) (quote_white quote) (
            rw quote (
              q,
              (
                omega (arith, h.starts),
                before_quote q m' h,
                inr (closing q m' h ne, refl, ground arith),
              ),
            ));
        kept = λ j out.
            others m' q j 0 (around before out)
            ∙ (ap (λ f. f j) h.unchanged ∙ others m s j 0 (outer more out));
        start = λ special. absurd (no_quote quote special);
        ended = λ z. absurd (omega arith);
        progress = λ z. (omega (arith, h.starts), omega arith);
        word = λ z. (
          q,
          (
            h.starts,
            (λ j l k.
                rw (others m' q j 0 (inl k), h.unchanged)
                  (not_nul ends_quote refl (opened j) (h.passed j l k))),
            inr (omega arith, ground arith),
          ),
        );
      }
    where
      lower : m' e ≡ 0 → q < e
      lower at_end = elim (Bool-cases (q == e)) [
        | inl z ↦ absurd (ne (subst (λ j. m' j ≡ 0) (sym (==_eq q e z)) at_end))
        | inr nz ↦ ground (arith, h.within_line)
      ]

      around : {j : ℕ} → q < e → (j < s) ⊎ (e ≤ j) → (j < q) ⊎ (q + 1 ≤ j)
      around before (inl l) = inl (omega (arith, h.starts))
      around before (inr l) = inr (omega arith)

  quoted-Lexes : m s ≡ b'"' → Returns (λ t m'. Lexes e s m t m') (quoted s m)
  unfolding quoted
  quoted-Lexes quote =
      let more : s < e = inside (ground arith) in
      Returns-bind (λ q m'. Stops ends_quote e (s + 1) opened q m') _
        (scan ends_quote line_max (s + 1) opened) _
        (scan-Stops ends_quote line_max e (s + 1) opened refl
          (omega arith, omega arith, others m s e 0 (inr (omega arith)) ∙ nul))
        (λ q m' h. elim (Bool-cases (m' q == 0)) [
          | inl z ↦ rw z (unclosed q m' quote h (==_eq (m' q) 0 z))
          | inr nz ↦ rw nz (closed_at q m' quote h (ground arith))
        ])

  symbol-Lexes :
      m s ≢ 0
      → m s ≢ b'"'
      → has whitespace (m s) ≡ false
      → has symbols (m s) ≡ true
      → Lexes e s m (token (m s) s (s + 1)) opened
  symbol-Lexes ne other no_white special = record {
    first =
        at_start (token (m s) s (s + 1)) opened no_white
          (rw (==_ne (m s) 0 ne, ==_ne (m s) b'"' other, special) refl);
    kept = λ j out. others m s j 0 (outer (inside ne) out);
    start = λ z. ground arith;
    ended = λ z. absurd (ne z);
    progress = λ z. (omega arith, omega (arith, inside ne));
    word = λ z. absurd (no_word z special);
  }

  token_at-Lexes :
      has whitespace (m s) ≡ false → Returns (λ t m'. Lexes e s m t m') (token_at s (m s) m)
  unfolding token_at
  token_at-Lexes no_white = elim (Bool-cases (m s == 0)) [
    | inl z ↦ rw z (record {
      first = at_start (token 0 0 0) m no_white (rw z refl);
      kept = λ j out. refl;
      start = λ special. ground arith;
      ended = λ y. refl;
      progress = λ y. absurd (y refl);
      word = λ y. absurd (omega arith);
    })
    | inr nz ↦ elim (Bool-cases (m s == b'"')) [
      | inl quote ↦ rw (nz, quote) (quoted-Lexes (ground arith))
      | inr other ↦ elim (Bool-cases (has symbols (m s))) [
        | inl special ↦
            rw (nz, other, special) (symbol-Lexes (ground arith) (ground arith) no_white special)
        | inr plain ↦
            rw (nz, other, plain)
              (bare-Lexes (ground arith) (ground arith) plain no_white
                (ordinary (m s) nz no_white plain))
      ]
    ]
  ]

module _ (e s : ℕ) (m : Bytes) where
  -- The white space before a token.
  after_white :
      (a : ℕ) (m1 : Bytes) (t : Token) (m' : Bytes)
      → Skipped e s m a m1
      → Lexes e a m1 t m'
      → Lexes e s m t m'
  after_white a m1 t m' h k = record {
    first =
        let (b, (from, white, no_white, chosen)) = k.first in
        (
          b,
          (
            omega (arith, h.from),
            (λ j l u. before j l u white),
            ap (has whitespace) (sym (h.same b (inr from))) ∙ no_white,
            subst (λ c. Chosen c b m t m') (h.same b (inr from))
                (right_kind (m1 b) b m m1 t m' (λ j l. h.same j (inr (omega arith))) chosen),
          ),
        );
    kept = λ j out. k.kept j (wide out) ∙ h.same j (wide' out);
    start = λ special. elim (Bool-cases (s == a)) [
      | inl z ↦
          let here : s ≡ a = ==_eq s a z in
          let same : m s ≡ m1 a = ap m here ∙ sym (h.same a (inr (omega arith))) in
          subst (λ j. m' j ≡ 0) (sym here) (k.start (subst (λ c. ends_word c ≡ true) same special))
      | inr nz ↦
          k.kept s (inl (ground (arith, h.from)))
          ∙ h.cleared s (omega arith) (ground (arith, h.from))
    ];
    ended = k.ended;
    progress = λ ne. (omega (arith, h.from, (k.progress ne).0), (k.progress ne).1);
    word = k.word;
  }
    where
      before :
          {b : ℕ} (j : ℕ)
          → s ≤ j
          → j < b
          → ((j : ℕ) → a ≤ j → j < b → has whitespace (m1 j) ≡ true)
          → has whitespace (m j) ≡ true
      before j l u white = elim (Bool-cases (ltb j a)) [
        | inl early ↦ h.white j l (ground arith)
        | inr late ↦
            let on : a ≤ j = ground arith in
            ap (has whitespace) (sym (h.same j (inr on))) ∙ white j on u
      ]

      wide : {j : ℕ} → (j < s) ⊎ (e ≤ j) → (j < a) ⊎ (e ≤ j)
      wide (inl l) = inl (omega (arith, h.from))
      wide (inr l) = inr l

      wide' : {j : ℕ} → (j < s) ⊎ (e ≤ j) → (j < s) ⊎ (a ≤ j)
      wide' (inl l) = inl l
      wide' (inr l) = inr (omega (arith, h.upto))

  -- In a line that ends at `e`, within the buffer, `_gettoken` from `s` on returns, and the first character that is no
  -- white space settles what: 0 at the end of the string; the symbol itself, from where it stands to the next character;
  -- 'w' for the word between two quotes, or 0 where the second is missing; and 'w' for the word up to the next white
  -- space, symbol or end. The characters of a word are as they were, and nothing outside the line changes; the character
  -- at `s`, where it ends a word, has become a NUL, and a token other than 0 ends behind `s` and within the line.
  pub next_token-Lexes :
      s ≢ 0
      → s ≤ e
      → e < s + line_max
      → m e ≡ 0
      → Returns (λ t m'. Lexes e s m t m') (next_token s m)
  unfolding next_token
  next_token-Lexes ne low high nul =
      let some_line : (s == 0) ≡ false = ground arith in
      rw some_line (
        Returns-bind (λ a m1. Skipped e s m a m1) _ (skip_white line_max s m) _
          (skip_white-Skipped line_max e s m (low, high, nul))
          (λ a m1 h.
            Returns-mono (λ t m'. Lexes e a m1 t m') _ (token_at a (m1 a) m1)
              (token_at-Lexes e a m1 h.upto (omega (arith, h.from)) (h.same e (inr h.upto) ∙ nul)
                (rw (h.same a (inr (omega arith))) h.no_white))
              (λ t m' k. after_white a m1 t m' h k)))
