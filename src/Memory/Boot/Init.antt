-- ===== src/Memory/Boot/Init.antt =====
-- What `page_init` of kern/pmap.c leaves behind.
use buaa_os.Prelude.{
  ℕ, zero, suc, ◌+◌, ◌*◌, ◌^◌, ◌≤◌, ◌<◌, ◌≡◌, refl, true, false, [], arith, ltb, leb, if◌then◌else◌,
  update, length, has, subst, sym, ◌∙◌, inl, inr, Bool-cases, ltb→lt, lt→ltb, Distinct, ◌&&◌,
}
use buaa_os.Prelude.Outcome.{modify, Returns, Returns-bind, Returns-mono}
use native.Mathlib.Nat.{le_refl}
use buaa_os.Memory.{Mem, u32, page2pa}
use buaa_os.Memory.Valid.{Role, free, held, IsValid}
use buaa_os.Memory.Boot.{round, ulim, mark_used, free_page, mark_free, page_init}

-- The free list holds the pages from `first` up to `pp`, each once, without references.
record Covers (first pp : ℕ) (s : Mem) : Type 0 where
  distinct : Distinct s.page_free_list
  within : (p : ℕ) → has p s.page_free_list ≡ true → (first ≤ p) × (p < pp)
  unused : (p : ℕ) → has p s.page_free_list ≡ true → s.pp_ref p ≡ 0
  count : length s.page_free_list + first ≡ pp

module _ (first : ℕ) where
  free_page-Covers :
      (pp : ℕ) (s : Mem) → Covers first pp s → first ≤ pp → Covers first (pp + 1) (free_page s pp)
  unfolding free_page
  free_page-Covers pp s c le = record {
    distinct = (not_there, c.distinct);
    within = λ p m. ground (arith, c.within p);
    unused = λ p m. ground (arith, c.unused p);
    count = omega (arith, c.count);
  }
    where
      not_there : has pp s.page_free_list ≡ false
      not_there = ground (arith, c.within pp)

  mark_free-Covers :
      (fuel pp : ℕ) (s : Mem)
      → Covers first pp s
      → first ≤ pp
      → pp ≤ s.npage
      → s.npage ≤ fuel + pp
      → Covers first s.npage (mark_free fuel pp s)
        × ((mark_free fuel pp s).npage ≡ s.npage)
        × ((p : ℕ) → p < pp → (mark_free fuel pp s).pp_ref p ≡ s.pp_ref p)
  unfolding mark_free free_page
  mark_free-Covers zero pp s c le top fuel =
      let end : pp ≡ s.npage = omega arith in
      (subst (λ n. Covers first n s) end c, refl, λ p l. refl)
  mark_free-Covers (suc n) pp s c le top fuel = elim (Bool-cases (ltb pp s.npage)) [
    | inl more ↦
        rw (more, mark_free)
          (let (covers, same, below) =
              mark_free-Covers n (pp + 1) (free_page s pp) (free_page-Covers pp s c le)
                (omega arith) (omega (arith, ltb→lt pp s.npage more)) (omega arith) in
            (covers, same, λ p l. below p (omega arith) ∙ ground arith))
    | inr stop ↦
        rw (stop, mark_free)
          (let end : pp ≡ s.npage = ground arith in
            (subst (λ n. Covers first n s) end c, refl, λ p l. refl))
  ]

-- The pages from `pp` up to `k` are used, and nothing else has changed but the pages after them.
abbrev Marked : ℕ → ℕ → Mem → ℕ → Mem → Type 0
Marked k pp s r s' =
    (r ≡ k)
    × (s'.npage ≡ s.npage)
    × (s'.page_free_list ≡ s.page_free_list)
    × ((p : ℕ) → pp ≤ p → p < k → s'.pp_ref p ≡ 1)
    × ((p : ℕ) → p < pp → s'.pp_ref p ≡ s.pp_ref p)

mark_used_lem :
    (fuel k pp : ℕ) (s : Mem)
    → pp ≤ k
    → k < s.npage
    → s.npage ≤ 2 ^ 19
    → k < fuel + pp
    → Returns (Marked k pp s) (mark_used fuel (ulim + k * 2 ^ 12) pp s)
unfolding mark_used
mark_used_lem zero k pp s le top small enough = absurd (omega arith)
mark_used_lem (suc n) k pp s le top small enough = elim (Bool-cases (ltb pp k)) [
  | inl more ↦
      rw (inside, ltb_below more, mark_used)
        (Returns-mono (Marked k (pp + 1) (record s { pp_ref = update s.pp_ref pp 1 }))
          (Marked k pp s) _
          (mark_used_lem n k (pp + 1) (record s { pp_ref = update s.pp_ref pp 1 })
            (omega (arith, ltb→lt pp k more)) top small (omega arith))
          (λ r s' (at, pages, list, used, before). (
            at,
            pages,
            list,
            λ p l m. used_from s' p l m (used p) (before p),
            λ p l. before p (omega arith) ∙ ground arith,
          )))
  | inr stop ↦
      rw (inside, ltb_at stop, mark_used)
        (ground arith, refl, refl, λ p l m. absurd (ground arith), λ p l. refl)
]
  where
    inside : leb s.npage pp ≡ false
    inside = ground arith

    ltb_below : ltb pp k ≡ true → ltb (u32 (page2pa pp + ulim)) (ulim + k * 2 ^ 12) ≡ true
    ltb_below h = lt→ltb _ _ (omega (arith, ltb→lt pp k h))

    ltb_at : ltb pp k ≡ false → ltb (u32 (page2pa pp + ulim)) (ulim + k * 2 ^ 12) ≡ false
    ltb_at h = ground arith

    used_from :
        (s' : Mem) (p : ℕ)
        → pp ≤ p
        → p < k
        → (pp + 1 ≤ p → p < k → s'.pp_ref p ≡ 1)
        → (p < pp + 1 → s'.pp_ref p ≡ update s.pp_ref pp 1 p)
        → s'.pp_ref p ≡ 1
    used_from s' p l m after before = ground arith

Covers-nothing : (k : ℕ) (s : Mem) → s.page_free_list ≡ [] → Covers k k s
Covers-nothing k s e = record {
  distinct = rw e tt;
  within = λ p. rw e (λ m. absurd (ground arith));
  unused = λ p. rw e (λ m. absurd (ground arith));
  count = rw e (omega arith);
}

-- The use of the pages at boot: the first `k` belong to the kernel.
abbrev pub boot_role : ℕ → ℕ → ℕ → Role
boot_role k n p = if leb k p && ltb p n then free else held

Covers-IsValid :
    (k : ℕ) (s : Mem) → s.npage ≤ 2 ^ 19 → Covers k s.npage s → IsValid s (boot_role k s.npage)
Covers-IsValid k s small c = record {
  small = omega arith;
  free_distinct = c.distinct;
  free_role = λ p m. ground (arith, c.within p);
  free_bound = λ p m. (c.within p m).1;
  free_unused = c.unused;
  table_role = λ r d h l w. absurd (ground arith);
  table_bound = λ r d h l w. absurd (ground arith);
  page_role = λ t r d i h l w. absurd (ground arith);
  page_bound = λ t r d i h l w. absurd (ground arith);
  page_used = λ t r d i h l w. absurd (ground arith);
}

abbrev pub Booted : ℕ → Mem → Unit {0} → Mem → Type 0
Booted k s _ s' =
    IsValid s' (boot_role k s.npage)
    × (length s'.page_free_list + k ≡ s.npage)
    × ((p : ℕ) → p < k → s'.pp_ref p ≡ 1)

-- `page_init` ends on every machine of at most 2 GiB whose kernel takes the first `k` pages, and
-- fewer than there are: these have one reference, and all the others stand once on the free list,
-- without references. So the memory is well formed.
pub page_init-IsValid :
    (s : Mem) (freemem k : ℕ)
    → round freemem (2 ^ 12) ≡ ulim + k * 2 ^ 12
    → k < s.npage
    → s.npage ≤ 2 ^ 19
    → Returns (Booted k s) (page_init freemem s)
unfolding page_init
page_init-IsValid s freemem k at top small = rw at (
    Returns-bind (Marked k 0 (record s { page_free_list = [] })) (Booted k s) _ _
      (mark_used_lem (s.npage + 1) k 0 (record s { page_free_list = [] }) (omega arith) top small
        (omega arith))
      (λ r s' (stop, pages, list, used, before).
        subst (λ n. Returns (Booted k s) (modify (mark_free (s.npage + 1) n) s')) (sym stop)
          (after s' pages list used)))
  where
    after :
        (s' : Mem)
        → s'.npage ≡ s.npage
        → s'.page_free_list ≡ []
        → ((p : ℕ) → 0 ≤ p → p < k → s'.pp_ref p ≡ 1)
        → Returns (Booted k s) (modify (mark_free (s.npage + 1) k) s')
    after s' pages list used =
        let start : Covers k k s' = Covers-nothing k s' list in
        let (covers, same, below) =
          mark_free-Covers k (s.npage + 1) k s' start (le_refl k) (omega arith) (omega arith) in
        (
          subst (λ n. IsValid (mark_free (s.npage + 1) k s') (boot_role k n)) (same ∙ pages)
              (Covers-IsValid k (mark_free (s.npage + 1) k s') (omega arith)
                (subst (λ n. Covers k n (mark_free (s.npage + 1) k s')) (sym same) covers)),
          covers.count ∙ pages,
          λ p l. below p l ∙ used p (omega arith) l,
        )
