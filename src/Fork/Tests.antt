-- ===== src/Fork/Tests.antt =====
-- Examples for user/lib/fork.c: page 0x400 is the parent's, which it may write, and page 0x401 can only be read.
use buaa_os.Prelude.{ℕ, ◌≡◌, refl, false, none, some, arith, ◌==◌, if◌then◌else◌}
use buaa_os.Prelude.Outcome.{Returns, and_then}
use buaa_os.Kernel.Syscall.{is_illegal_va}
use buaa_os.Fork.{Side, parent, child, Spaces, Answers, page_va, duppage, cow_entry}
use buaa_os.Fork.Duppage.{Stepped, duppage-Forked}
use buaa_os.Fork.Cow.{Owned, Apart, cow_entry-Owned, duppage-cow_entry}

-- Page 0x400 names page 7 and is valid and writable, page 0x401 names page 8 and is valid.
abbrev space : Spaces
space = record { ptes = entries; pages = λ q j. q }
  where
    entries : Side → ℕ → ℕ
    entries parent i = if i == 0x400 then 0x7600 else if i == 0x401 then 0x8200 else 0
    entries child i = 0

-- The same after `duppage` of page 0x400.
abbrev marked : Spaces
marked = record space { ptes = λ side i. if i == 0x400 then 0x7201 else 0 }

abbrev grants : Answers
grants s side i = none

legal : is_illegal_va (page_va 0x400) ≡ false
unfolding is_illegal_va
legal = refl

duppage-Forked_example :
    Returns
      (λ _ t. if is_illegal_va (page_va 0x400) then t ≡ space else Stepped 0x400 space t)
      (duppage grants 0x400 space)
duppage-Forked_example =
    duppage-Forked grants 0x400 space (λ t side. refl) (omega arith) (omega arith) refl

cow_entry-Owned_example :
    Returns
      (λ _ t. Owned child 0x400 9 marked t)
      (cow_entry grants (λ _. some 9) child 0x400abc marked)
unfolding is_illegal_va
cow_entry-Owned_example =
    cow_entry-Owned grants (λ _. some 9) child 0x400abc 9 marked (λ t. refl) refl refl (omega arith)
      refl (omega arith) (omega arith)

duppage-cow_entry_example :
    Returns
      (λ _ t. Apart child 0x400 space t)
      (and_then (duppage grants 0x400 space) (λ _. cow_entry grants (λ _. some 9) child 0x400abc))
unfolding is_illegal_va
duppage-cow_entry_example =
    duppage-cow_entry grants child 0x400abc 9 space (λ t z. refl) refl (omega arith) (omega arith)
      (omega arith) refl refl (omega arith) (omega arith)
