-- ===== src/Queue/Chain.antt =====
-- The chain of elements between two places of a queue of include/queue.h.
use buaa_os.Prelude.{
  ℕ, ◌≡◌, ◌≢◌, ◌⊎◌, inl, inr, refl, true, false, ◌||◌, none, some, List, [], ◌∷◌, ◌++◌, arith, ◌==◌,
  has, Distinct, subst, sym, ap, ◌∙◌, Bool-cases, ==_eq,
}
use buaa_os.Queue.{Place, head, next_of, Tailq, init}

-- From the place `p` the pointers lead through `xs` to the place `r`, and back.
abbrev pub Chain : Tailq → Place → List ℕ → Place → Type 0
Chain q p [] r = p ≡ r
Chain q p (x ∷ xs) r = (q.cell p ≡ some x) × (q.prev x ≡ p) × Chain q (next_of x) xs r

-- The queue holds `xs`, first to last, each once.
pub record Holds (q : Tailq) (xs : List ℕ) : Type 0 where
  pub chain : Chain q head xs q.last
  pub ends : q.cell q.last ≡ none
  pub once : Distinct xs

pub has-append : (a : ℕ) (xs ys : List ℕ) → has a (xs ++ ys) ≡ (has a xs || has a ys)
has-append a [] ys = refl
has-append a (x ∷ xs) ys = ground (arith, has-append a xs ys)

-- A chain ends where it starts, or behind one of its elements.
abbrev pub EndsIn : Place → List ℕ → Place → Type 0
EndsIn p xs r = (p ≡ r) ⊎ ((z : ℕ) × (r ≡ next_of z) × (has z xs ≡ true))

pub Chain-end : (q : Tailq) (p : Place) (xs : List ℕ) (r : Place) → Chain q p xs r → EndsIn p xs r
Chain-end q p [] r c = inl c
Chain-end q p (x ∷ xs) r c = elim (Chain-end q (next_of x) xs r c.2) [
  | inl e ↦ inr (x, sym e, ground arith)
  | inr (z, e, m) ↦ inr (z, e, ground arith)
]

-- `p` is no place of an element of `xs`.
abbrev pub Outside : Place → List ℕ → Type 0
Outside p xs = (z : ℕ) → has z xs ≡ true → p ≢ next_of z

pub Chain-nonempty_end :
    (q : Tailq) (p : Place) (x : ℕ) (xs : List ℕ) (r : Place)
    → Chain q p (x ∷ xs) r
    → Outside p (x ∷ xs)
    → p ≢ r
Chain-nonempty_end q p x xs r c out e = elim (Chain-end q (next_of x) xs r c.2) [
  | inl same ↦ out x (ground arith) (omega arith)
  | inr (z, at, m) ↦ out z (ground arith) (omega arith)
]

-- A change of the queue that spares the chain's pointers, but for the place where it ends.
pub Chain-frame :
    (q q' : Tailq) (p : Place) (xs : List ℕ) (r : Place)
    → Chain q p xs r
    → Distinct xs
    → Outside p xs
    → (p ≢ r → q'.cell p ≡ q.cell p)
    → ((x : ℕ) → has x xs ≡ true → next_of x ≢ r → q'.cell (next_of x) ≡ q.cell (next_of x))
    → ((x : ℕ) → has x xs ≡ true → q'.prev x ≡ q.prev x)
    → Chain q' p xs r
Chain-frame q q' p [] r c d out at nexts prevs = c
Chain-frame q q' p (x ∷ xs) r c d out at nexts prevs = (
  at (Chain-nonempty_end q p x xs r c out) ∙ c.0,
  prevs x (ground arith) ∙ c.1,
  Chain-frame q q' (next_of x) xs r c.2 d.1 (λ z m e. ground arith) (nexts x (ground arith))
      (λ z m. nexts z (ground arith)) (λ z m. prevs z (ground arith)),
)

pub Chain-append :
    (q : Tailq) (p : Place) (xs : List ℕ) (m : Place) (ys : List ℕ) (r : Place)
    → Chain q p xs m
    → Chain q m ys r
    → Chain q p (xs ++ ys) r
Chain-append q p [] m ys r c d = subst (λ n. Chain q n ys r) (sym c) d
Chain-append q p (x ∷ xs) m ys r c d = (c.0, c.1, Chain-append q (next_of x) xs m ys r c.2 d)

pub Chain-split :
    (q : Tailq) (p : Place) (xs ys : List ℕ) (r : Place)
    → Chain q p (xs ++ ys) r
    → (m : Place) × Chain q p xs m × Chain q m ys r
Chain-split q p [] ys r c = (p, refl, c)
Chain-split q p (x ∷ xs) ys r c =
    let (m, front, back) = Chain-split q (next_of x) xs ys r c.2 in (m, (c.0, c.1, front), back)

pub Distinct-append :
    (xs ys : List ℕ)
    → Distinct (xs ++ ys)
    → Distinct xs × Distinct ys × ((z : ℕ) → has z xs ≡ true → has z ys ≡ false)
Distinct-append [] ys d = (tt, d, λ z m. absurd (ground arith))
Distinct-append (x ∷ xs) ys d =
    let (front, back, apart) = Distinct-append xs ys d.1 in
    (
      (ground (arith, has-append x xs ys), front),
      back,
      λ z m. ground (arith, apart z, has-append x xs ys),
    )

pub Distinct-join :
    (xs ys : List ℕ)
    → Distinct xs
    → Distinct ys
    → ((z : ℕ) → has z xs ≡ true → has z ys ≡ false)
    → Distinct (xs ++ ys)
Distinct-join [] ys d e apart = e
Distinct-join (x ∷ xs) ys d e apart = (
  ground (arith, has-append x xs ys, apart x),
  Distinct-join xs ys d.1 e (λ z m. apart z (ground arith)),
)

-- Where a chain from the head ends: not at NULL, and at no element outside of it.
pub Chain-end_place :
    (q : Tailq) (xs : List ℕ) (m : Place)
    → Chain q head xs m
    → (m ≢ 0) × ((x : ℕ) → has x xs ≡ false → m ≢ next_of x)
Chain-end_place q xs m c = elim (Chain-end q head xs m c) [
  | inl e ↦ (omega arith, λ x out. omega arith)
  | inr (z, e, there) ↦ (omega arith, λ x out at. ground arith)
]

-- A member splits the list.
pub has-split : (e : ℕ) (l : List ℕ) → has e l ≡ true → (xs ys : List ℕ) × (l ≡ xs ++ e ∷ ys)
has-split e [] m = absurd (ground arith)
has-split e (x ∷ l) m = elim (Bool-cases (e == x)) [
  | inl same ↦ ([], l, ap (λ n. n ∷ l) (sym (==_eq e x same)))
  | inr other ↦ let (xs, ys, at) = has-split e l (ground arith) in (x ∷ xs, ys, ap (◌∷◌ x) at)
]

-- TAILQ_INIT empties the queue.
pub init-Holds : (q : Tailq) → Holds (init q) []
unfolding init
init-Holds q = record { chain = refl; ends = refl; once = tt }
