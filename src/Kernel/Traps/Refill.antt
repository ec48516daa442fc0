-- ===== src/Kernel/Traps/Refill.antt =====
-- What `passive_alloc` of kern/tlbex.c maps.
use buaa_os.Prelude.{
  ℕ, ◌<◌, ◌≡◌, ◌≢◌, ◌⊎◌, inl, inr, refl, true, false, some, List, ◌∷◌, arith, update, has,
  Bool-cases, sym, ◌∙◌,
}
use buaa_os.Prelude.Outcome.{Outcome, done, fail, panic, Returns}
use buaa_os.Memory.{Mem, pdx, ptx, pte_addr, pte_d, valid, entry}
use buaa_os.Memory.Alloc.{taken, page_alloc_first, taken-IsValid}
use buaa_os.Memory.Maps.{Elsewhere, Result, page_insert-Maps}
use buaa_os.Memory.Mapping.{vpn}
use buaa_os.Memory.Valid.{Role, held, root, user_top, IsValid, mapping}
use buaa_os.Kernel.Traps.{is_refused, panic_on, passive_alloc}

-- The address of its page names the same words of the tables.
same_page : (s : Mem) (r va : ℕ) → mapping s r (pte_addr va) ≡ mapping s r va
unfolding mapping
same_page s r va = rw (directory, words) refl
  where
    directory : pdx (pte_addr va) ≡ pdx va
    directory = omega arith

    words : ptx (pte_addr va) ≡ ptx va
    words = omega arith

module _ (s : Mem) (role : ℕ → Role) (ok : IsValid s role) (r asid va : ℕ) (is_root : role r ≡ root)
    (low : pdx va < user_top) (p q : ℕ) (rest : List ℕ) (two : s.page_free_list ≡ p ∷ q ∷ rest)
    (accepted : is_refused va ≡ false) where
  spare : has p s.page_free_list ≡ true
  spare = rw two (ground arith)

  abbrev after_alloc : Mem
  after_alloc = taken s p (q ∷ rest)

  abbrev role_after : ℕ → Role
  role_after = update role p held

  unchanged :
      (t wa : ℕ) → role t ≡ root → pdx wa < user_top → mapping after_alloc t wa ≡ mapping s t wa
  unfolding mapping
  unchanged t wa is l = elim (Bool-cases (valid (s.frame t (pdx wa)))) [
    | inl v ↦ ground (arith, ok.free_role p spare, ok.table_role t (pdx wa) is l v)
    | inr v ↦ ground (arith, ok.free_role p spare)
  ]

  -- The page at the head of the free list is at the address now, and no other address has changed.
  abbrev pub Fills : Unit {0} → Mem → Type 0
  Fills _ s' = (mapping s' r va ≡ some (entry p pte_d)) × Elsewhere role r va s s'

  abbrev page : ℕ
  page = pte_addr va

  page_low : pdx page < user_top
  page_low = omega (arith, low)

  keeps_root : (t : ℕ) → role t ≡ root → role_after t ≡ root
  keeps_root t is = ground (arith, ok.free_role p spare)

  filled :
      (o : Outcome Mem (Unit {0}))
      → Result after_alloc role_after
          (taken-IsValid s role ok p (q ∷ rest) two)
          r
          asid
          p
          page
          pte_d
          (keeps_root r is_root)
          page_low
          o
      → Returns Fills (panic_on o)
  filled (done u s') (new, others) = (
    sym (same_page s' r va) ∙ new,
    λ t wa is l apart. others t wa (keeps_root t is) l (same_vpn t wa apart) ∙ unchanged t wa is l,
  )
    where
      same_vpn : (t wa : ℕ) → ((t ≢ r) ⊎ (vpn wa ≢ vpn va)) → (t ≢ r) ⊎ (vpn wa ≢ vpn page)
      same_vpn t wa (inl ne) = inl ne
      same_vpn t wa (inr ne) = inr (λ e. ne (e ∙ omega arith))
  filled (fail e s') (_, empty, _, _) = absurd cc
  filled panic h = h

  -- In a well-formed memory with two free pages, for a page directory and an address below UTOP
  -- that `passive_alloc` does not refuse: it maps the first free page there, writable, and changes
  -- no other address of any space. It does not panic.
  pub passive_alloc-Fills : Returns Fills (passive_alloc va r asid s)
  unfolding passive_alloc
  passive_alloc-Fills =
      rw (accepted, page_alloc_first s p (q ∷ rest) two (ok.free_bound p spare) ok.small)
        (filled _ (
          page_insert-Maps after_alloc role_after (taken-IsValid s role ok p (q ∷ rest) two) r asid
            p page pte_d (keeps_root r is_root) page_low))
