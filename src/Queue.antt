-- ===== src/Queue.antt =====
-- The tail queues of include/queue.h, at the level of their pointers. An element is a number.
-- `tqe_prev` and `tqh_last` hold the address of a pointer to an element: 0 is NULL, 1 is the head's
-- `tqh_first`, and `e + 2` the `tqe_next` of the element `e`. A write through NULL faults.
pub mod Chain
pub mod Head
pub mod Refine
pub mod Tests
use buaa_os.Prelude.{ℕ, ◌+◌, Bool, true, false, Option, none, some, ◌==◌, if◌then◌else◌, update}
use buaa_os.Prelude.Outcome.{Outcome, Cmd, done, panic}

abbrev pub Place : Type 0
Place = ℕ

abbrev pub head : Place
head = 1

abbrev pub next_of : ℕ → Place
next_of e = e + 2

-- `cell` is the memory of the pointers `tqh_first` and `tqe_next`.
pub record Tailq : Type 0 where
  pub cell : Place → Option ℕ
  pub prev : ℕ → Place
  pub last : Place

-- TAILQ_INIT
pub init : Tailq → Tailq
init q = record q { cell = update q.cell head none; last = head }

-- TAILQ_EMPTY and TAILQ_FIRST
abbrev pub first : Tailq → Option ℕ
first q = q.cell head

-- `*place = v`
abbrev pub write : Place → Option ℕ → Tailq → Outcome Tailq (Unit {0})
write p v q = if p == 0 then panic else done tt (record q { cell = update q.cell p v })

abbrev set_next : ℕ → Option ℕ → Tailq → Tailq
set_next e v q = record q { cell = update q.cell (next_of e) v }

abbrev set_prev : ℕ → Place → Tailq → Tailq
set_prev e p q = record q { prev = update q.prev e p }

abbrev set_last : Place → Tailq → Tailq
set_last p q = record q { last = p }

-- The element after `e` now follows the place `p`; without one, the queue ends at `p`.
abbrev follow : Option ℕ → Place → Tailq → Tailq
follow none p q = set_last p q
follow (some n) p q = set_prev n p q

-- TAILQ_INSERT_HEAD
pub insert_head : ℕ → Tailq → Tailq
insert_head e q =
    let linked = set_next e (first q) q in
    let followed = follow (first q) (next_of e) linked in
    set_prev e head (record followed { cell = update followed.cell head (some e) })

at_end : ℕ → Tailq → Outcome Tailq (Unit {0}) → Outcome Tailq (Unit {0})
at_end e q (done r q') = done r (set_last (next_of e) q')
at_end e q r = r

-- TAILQ_INSERT_TAIL
pub insert_tail : ℕ → Cmd Tailq (Unit {0})
unfolding at_end
insert_tail e q =
    let linked = set_prev e q.last (set_next e none q) in at_end e q (write q.last (some e) linked)

-- TAILQ_REMOVE
pub remove : ℕ → Cmd Tailq (Unit {0})
remove e q = let next = q.cell (next_of e) in let p = q.prev e in write p next (follow next p q)
