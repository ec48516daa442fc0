-- ===== src/Queue/Head.antt =====
-- TAILQ_INSERT_HEAD of include/queue.h, and the head of a queue.
use buaa_os.Prelude.{ℕ, ◌≡◌, inl, inr, refl, false, none, some, List, [], ◌∷◌, arith, has, update}
use buaa_os.Queue.{head, next_of, Tailq, first, insert_head}
use buaa_os.Queue.Chain.{Chain, Holds, Chain-end, Chain-frame}
use mathlib.Core.List.{head?}

module _ (q : Tailq) (x : ℕ) (xs : List ℕ) (e : ℕ) (h : Holds q (x ∷ xs))
    (out : has e (x ∷ xs) ≡ false) where
  abbrev headed : Tailq
  headed = record q {
    cell = update (update q.cell (next_of e) (some x)) head (some e);
    prev = update (update q.prev x (next_of e)) e head;
  }

  headed_rest : Chain headed (next_of x) xs q.last
  headed_rest =
      Chain-frame q headed (next_of x) xs q.last h.chain.2 h.once.1
        (λ z m at. ground (arith, h.once.0)) (λ other. ground arith) (λ z m other. ground arith)
        (λ z m. ground (arith, h.once.0))

  headed_ends : headed.cell q.last ≡ none
  headed_ends = elim (Chain-end q (next_of x) xs q.last h.chain.2) [
    | inl same ↦ ground (arith, h.ends)
    | inr (z, there, m) ↦ ground (arith, h.ends)
  ]

  insert_head-nonempty : Holds (insert_head e q) (e ∷ x ∷ xs)
  unfolding insert_head
  insert_head-nonempty = rw h.chain.0 (record {
    chain = (ground arith, ground arith, (ground arith, ground arith, headed_rest));
    ends = headed_ends;
    once = (out, h.once);
  })

-- TAILQ_INSERT_HEAD puts an element that is not in the queue before the others.
insert_head-cons :
    (q : Tailq) (xs : List ℕ) (e : ℕ)
    → Holds q xs
    → has e xs ≡ false
    → Holds (insert_head e q) (e ∷ xs)
unfolding insert_head
insert_head-cons q [] e h out =
    let empty : q.cell head ≡ none = ground (arith, h.ends, h.chain) in
    rw empty (record {
      chain = (ground arith, ground arith, refl);
      ends = ground arith;
      once = (refl, tt);
    })
insert_head-cons q (x ∷ xs) e h out = insert_head-nonempty q x xs e h out

-- TAILQ_FIRST and TAILQ_EMPTY see the first element, or that there is none.
pub first_lem : (q : Tailq) (xs : List ℕ) → Holds q xs → first q ≡ head? xs
first_lem q [] h = ground (arith, h.ends, h.chain)
first_lem q (x ∷ xs) h = h.chain.0
