-- ===== src/Queue/Tests.antt =====
-- Examples for the queues of include/queue.h.
use buaa_os.Prelude.{◌≡◌, refl, none, some, [], ◌∷◌, ◌++◌, ◌==◌, if◌then◌else◌}
use mathlib.Core.List.{head?}
use buaa_os.Prelude.Outcome.{Returns, ◌>>=◌}
use buaa_os.Queue.{Tailq, first, remove}
use buaa_os.Queue.Chain.{Holds}
use buaa_os.Queue.Head.{first_lem}
use buaa_os.Queue.Refine.{remove-remove}

-- The queue of the elements 5 and 3.
abbrev pub pair : Tailq
pair = record {
  cell = λ p. if p == 1 then some 5 else (if p == 7 then some 3 else none);
  prev = λ e. if e == 5 then 1 else (if e == 3 then 7 else 0);
  last = 5;
}

pub pair-Holds : Holds pair (5 ∷ 3 ∷ [])
pair-Holds = record {
  chain = (refl, refl, (refl, refl, refl));
  ends = refl;
  once = (refl, (refl, tt));
}

remove-remove_example :
    Returns (λ _ q'. Holds q' ((5 ∷ []) ++ [])) (remove 3 pair)
    × Returns (λ _ q'. Holds q' ((5 ∷ []) ++ [])) ((remove 3 >>= λ _. remove 3) pair)
remove-remove_example = remove-remove pair 3 (5 ∷ []) [] pair-Holds

first_lem_example : first pair ≡ head? (5 ∷ 3 ∷ [])
first_lem_example = first_lem pair (5 ∷ 3 ∷ []) pair-Holds
