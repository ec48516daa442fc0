-- ===== src/Queue/Refine.antt =====
-- The tail queues of include/queue.h implement sequences.
use buaa_os.Prelude.{
  ℕ, ◌≡◌, ◌≢◌, inl, inr, refl, true, false, none, some, List, [], ◌∷◌, ◌++◌, arith, has, Distinct,
  subst, sym, update, Bool-cases, ==_ne,
}
use buaa_os.Prelude.Outcome.{Returns, Returns-mono, Returns-bind, ◌>>=◌}
use buaa_os.Queue.{head, next_of, Tailq, init, insert_tail, remove}
use buaa_os.Queue.Chain.{
  Chain, Holds, has-append, Chain-end, Chain-frame, Chain-append, Chain-split, Distinct-append,
  Distinct-join, Chain-end_place, Outside,
}

pub init-Holds : (q : Tailq) → Holds (init q) []
unfolding init
init-Holds q = record { chain = refl; ends = ground arith; once = tt }

pub head-Outside : (xs : List ℕ) → Outside head xs
head-Outside xs z m = omega arith

abbrev appended : Tailq → ℕ → Tailq
appended q e = record q {
  cell = update (update q.cell (next_of e) none) q.last (some e);
  prev = update q.prev e q.last;
  last = next_of e;
}

-- An element that is not in the queue goes to its end.
pub insert_tail-append :
    (q : Tailq) (xs : List ℕ) (e : ℕ)
    → Holds q xs
    → has e xs ≡ false
    → Returns (λ _ q'. Holds q' (xs ++ e ∷ [])) (insert_tail e q)
unfolding insert_tail
insert_tail-append q xs e h out =
    let (ne, apart) = Chain-end_place q xs q.last h.chain in
    let front : Chain (appended q e) head xs q.last =
      Chain-frame q (appended q e) head xs q.last h.chain h.once (head-Outside xs)
        (λ other. ground arith) (λ x m other. ground arith) (λ x m. ground arith) in
    rw (==_ne q.last 0 ne) (record {
      chain =
          Chain-append (appended q e) head xs q.last (e ∷ []) (next_of e) front
            (ground arith, ground arith, refl);
      ends = ground (arith, apart e out);
      once = Distinct-join xs (e ∷ []) h.once (refl, tt) (λ z m. ground arith);
    })

-- The queue as it is behind an element: where its rest starts, if there is one, and ends.
abbrev pub Follows : Tailq → ℕ → List ℕ → Type 0
Follows q e [] = q.cell (next_of e) ≡ none
Follows q e (y ∷ ys) =
    (q.cell (next_of e) ≡ some y) × Chain q (next_of y) ys q.last × (q.cell q.last ≡ none)

-- The pointers of `e` lead from the end of `xs` to the start of `ys`.
pub record Between (q : Tailq) (e : ℕ) (xs ys : List ℕ) : Type 0 where
  pub front : Chain q head xs (q.prev e)
  pub back : Follows q e ys
  pub once : Distinct (xs ++ ys)

-- What TAILQ_REMOVE leaves: the queue without the element, whose own pointers are as before.
abbrev pub Removed : Tailq → ℕ → List ℕ → List ℕ → Type 0
Removed q e xs ys = Holds q (xs ++ ys) × Between q e xs ys

module _ (q : Tailq) (e : ℕ) (xs : List ℕ) where
  abbrev cut : Tailq
  cut = record q { cell = update q.cell (q.prev e) none; last = q.prev e }

  remove-last :
      Between q e xs [] → has e xs ≡ false → Returns (λ _ q'. Removed q' e xs []) (remove e q)
  unfolding remove
  remove-last b out =
      let (ne, apart) = Chain-end_place q xs (q.prev e) b.front in
      let front : Chain cut head xs (q.prev e) =
        Chain-frame q cut head xs (q.prev e) b.front (Distinct-append xs [] b.once).0
          (head-Outside xs) (λ other. ground arith) (λ x m other. ground arith) (λ x m. refl) in
      rw (b.back, ==_ne (q.prev e) 0 ne)
        (
          record {
            chain = Chain-append cut head xs (q.prev e) [] (q.prev e) front refl;
            ends = ground arith;
            once = b.once;
          },
          record { front = front; back = ground (arith, apart e out, b.back); once = b.once },
        )

  module _ (y : ℕ) (ys : List ℕ) (b : Between q e xs (y ∷ ys))
      (out : has e (xs ++ y ∷ ys) ≡ false) where
    abbrev joined : Tailq
    joined = record q {
      cell = update q.cell (q.prev e) (some y);
      prev = update q.prev y (q.prev e);
    }

    parts : Distinct xs × Distinct (y ∷ ys) × ((z : ℕ) → has z xs ≡ true → has z (y ∷ ys) ≡ false)
    parts = Distinct-append xs (y ∷ ys) b.once

    place : (q.prev e ≢ 0) × ((x : ℕ) → has x xs ≡ false → q.prev e ≢ next_of x)
    place = Chain-end_place q xs (q.prev e) b.front

    not_front : (x : ℕ) → has x (y ∷ ys) ≡ true → has x xs ≡ false
    not_front x m = elim (Bool-cases (has x xs)) [
      | inl there ↦ cc (parts.2 x there)
      | inr away ↦ away
    ]

    joined_front : Chain joined head xs (q.prev e)
    joined_front =
        Chain-frame q joined head xs (q.prev e) b.front parts.0 (head-Outside xs)
          (λ other. ground arith) (λ x m other. ground arith) (λ x m. ground (arith, parts.2 x m))

    joined_back : Chain joined (next_of y) ys q.last
    joined_back =
        Chain-frame q joined (next_of y) ys q.last b.back.1 parts.1.1
          (λ z m at. ground (arith, parts.1.0))
          (λ other. ground (arith, place.1 y (not_front y (ground arith))))
          (λ x m other. ground (arith, place.1 x (not_front x (ground arith))))
          (λ x m. ground (arith, parts.1.0))

    end_apart : q.last ≢ q.prev e
    end_apart at = elim (Chain-end q (next_of y) ys q.last b.back.1) [
      | inl same ↦ place.1 y (not_front y (ground arith)) (omega arith)
      | inr (z, there, m) ↦ place.1 z (not_front z (ground arith)) (omega arith)
    ]

    joined_ends : joined.cell q.last ≡ none
    joined_ends = ground (arith, end_apart, b.back.2)

    remove-middle : Returns (λ _ q'. Removed q' e xs (y ∷ ys)) (remove e q)
    unfolding remove
    remove-middle =
        rw (b.back.0, ==_ne (q.prev e) 0 place.0)
          (
            record {
              chain =
                  Chain-append joined head xs (q.prev e) (y ∷ ys) q.last joined_front
                    (ground arith, ground arith, joined_back);
              ends = joined_ends;
              once = b.once;
            },
            record {
              front =
                  subst (λ m. Chain joined head xs m) (ground (arith, has-append e xs (y ∷ ys)))
                    joined_front;
              back = (
                ground (arith, has-append e xs (y ∷ ys), place.1 e, b.back.0),
                joined_back,
                joined_ends,
              );
              once = b.once;
            },
          )

  -- TAILQ_REMOVE takes out the element whose pointers lead from `xs` to `ys`, whether or not it
  -- is still in the queue. The pointers of the element stay as they are.
  pub remove-Between :
      (ys : List ℕ)
      → Between q e xs ys
      → has e (xs ++ ys) ≡ false
      → Returns (λ _ q'. Removed q' e xs ys) (remove e q)
  remove-Between [] b out = remove-last b (ground (arith, has-append e xs []))
  remove-Between (y ∷ ys) b out = remove-middle y ys b out

  Follows-rest :
      (ys : List ℕ) → Chain q (next_of e) ys q.last → q.cell q.last ≡ none → Follows q e ys
  Follows-rest [] c end = subst (λ m. q.cell m ≡ none) (sym c) end
  Follows-rest (y ∷ ys) c end = (c.0, c.2, end)

  -- A member of the queue stands between what is before and what is behind it.
  pub member-Between :
      (ys : List ℕ) → Holds q (xs ++ e ∷ ys) → Between q e xs ys × (has e (xs ++ ys) ≡ false)
  member-Between ys h =
      let (m, front, c) = Chain-split q head xs (e ∷ ys) q.last h.chain in
      let (dx, de, apart) = Distinct-append xs (e ∷ ys) h.once in
      (
        record {
          front = subst (λ n. Chain q head xs n) (sym c.1) front;
          back = Follows-rest ys c.2 h.ends;
          once = Distinct-join xs ys dx de.1 (λ z there. ground (arith, apart z there));
        },
        ground (arith, has-append e xs ys, apart e, de.0),
      )

-- TAILQ_REMOVE of a member leaves the others in their order. A second TAILQ_REMOVE of the same
-- element, with no change between the two, changes nothing that the queue holds.
pub remove-remove :
    (q : Tailq) (e : ℕ) (xs ys : List ℕ)
    → Holds q (xs ++ e ∷ ys)
    → Returns (λ _ q'. Holds q' (xs ++ ys)) (remove e q)
      × Returns (λ _ q'. Holds q' (xs ++ ys)) ((remove e >>= λ _. remove e) q)
remove-remove q e xs ys h =
    let (b, out) = member-Between q e xs ys h in
    let once = remove-Between q e xs ys b out in
    (
      Returns-mono (λ _ q'. Removed q' e xs ys) (λ _ q'. Holds q' (xs ++ ys)) _ once
          (λ u q' r. r.0),
      Returns-bind (λ _ q'. Removed q' e xs ys) (λ _ q'. Holds q' (xs ++ ys)) _ _ once
          λ u q' r.
            Returns-mono (λ _ q'. Removed q' e xs ys) (λ _ q'. Holds q' (xs ++ ys)) _
              (remove-Between q' e xs ys r.1 out) (λ v p s. s.0),
    )
