-- ===== src/Memory/Tests.antt =====
-- Examples for the memory of kern/pmap.c: one address space with one page mapped, at UTEMP.
use buaa_os.Prelude.{ℕ, ◌+◌, ◌*◌, ◌^◌, ◌≡◌, refl, ◌&&◌, [], ◌∷◌, arith, ◌==◌, if◌then◌else◌, update}
use buaa_os.Prelude.Outcome.{Returns, Ends}
use buaa_os.Memory.{Mem, pte_d, page_alloc, page_free, page_insert, page_remove}
use buaa_os.Memory.Alloc.{Allocates, page_alloc-IsValid, page_free-IsValid}
use buaa_os.Memory.Boot.{page_init, round, ulim}
use buaa_os.Memory.Boot.Init.{Booted, page_init-IsValid}
use buaa_os.Memory.Maps.{Result, page_insert-Maps}
use buaa_os.Memory.Unmap.{Unmaps, page_remove-Unmaps}
use buaa_os.Memory.Valid.{Role, free, held, root, user, table, IsValid}

-- Page 0 is the directory, page 1 its table for the first 4 MB, page 2 the page mapped.
abbrev pub one_space : Mem
one_space = record {
  npage = 5;
  frame = λ p i. if p == 0 && i == 0 then 0x1600 else (if p == 1 && i == 0x3fe then 0x2600 else 0);
  pp_ref = λ p. if p == 1 then 1 else (if p == 2 then 1 else 0);
  page_free_list = 3 ∷ 4 ∷ [];
  tlb = [];
}

abbrev pub one_role : ℕ → Role
one_role p =
    if p == 0 then root else (if p == 1 then table 0 0 else (if p == 2 then user else free))

pub one_space-IsValid : IsValid one_space one_role
one_space-IsValid = record {
  small = omega arith;
  free_distinct = (refl, (refl, tt));
  free_role = λ p m. ground arith;
  free_bound = λ p m. ground arith;
  free_unused = λ p m. ground arith;
  table_role = λ r d h l v. ground arith;
  table_bound = λ r d h l v. ground arith;
  page_role = λ t r d i h l v. ground arith;
  page_bound = λ t r d i h l v. ground arith;
  page_used = λ t r d i h l v. ground arith;
}

page_insert-Maps_example :
    Result one_space one_role one_space-IsValid 0 7 2 0x800000 pte_d refl
      (omega arith)
      (page_insert 0 7 2 0x800000 pte_d one_space)
page_insert-Maps_example =
    page_insert-Maps one_space one_role one_space-IsValid 0 7 2 0x800000 pte_d refl (omega arith)

page_remove-Unmaps_example :
    Returns
      (Unmaps one_space one_role one_space-IsValid 0 0x3fe000 refl (omega arith))
      (page_remove 0 7 0x3fe000 one_space)
page_remove-Unmaps_example =
    page_remove-Unmaps one_space one_role one_space-IsValid 0 0x3fe000 refl (omega arith) 7

page_alloc-IsValid_example : Allocates one_space one_role one_space-IsValid (page_alloc one_space)
page_alloc-IsValid_example = page_alloc-IsValid one_space one_role one_space-IsValid

-- Page 4 is held: it is neither free nor mapped.
abbrev one_held : Mem
one_held = record one_space { page_free_list = 3 ∷ [] }

abbrev held_role : ℕ → Role
held_role = update one_role 4 held

one_held-IsValid : IsValid one_held held_role
one_held-IsValid = record {
  small = omega arith;
  free_distinct = (refl, tt);
  free_role = λ p m. ground arith;
  free_bound = λ p m. ground arith;
  free_unused = λ p m. ground arith;
  table_role = λ r d h l v. ground arith;
  table_bound = λ r d h l v. ground arith;
  page_role = λ t r d i h l v. ground arith;
  page_bound = λ t r d i h l v. ground arith;
  page_used = λ t r d i h l v. ground arith;
}

page_free-IsValid_example :
    Ends
      (λ _ s'. IsValid s' (update held_role 4 free) × (s'.page_free_list ≡ 4 ∷ 3 ∷ []))
      (λ e s'. ⊥)
      (page_free 4 one_held)
page_free-IsValid_example =
    page_free-IsValid one_held held_role one_held-IsValid 4 refl (omega arith) refl

rounded : round 0x80000800 (2 ^ 12) ≡ ulim + 1 * 2 ^ 12
unfolding round
rounded = refl

page_init-IsValid_example : Returns (Booted 1 one_space) (page_init 0x80000800 one_space)
page_init-IsValid_example =
    page_init-IsValid one_space 0x80000800 1 rounded (omega arith) (omega arith)
