-- ===== src/Elf/Plan.antt =====
-- `elf_load_seg` of lib/elfloader.c against one loop over the pages that the segment meets.
use buaa_os.Prelude.{
  ℕ, zero, suc, ◌+◌, ◌-◌, ◌*◌, ◌/◌, ◌%◌, ◌^◌, ◌<◌, ◌≤◌, ◌≡◌, ◌≢◌, ◌⊎◌, refl, ap, inl, inr, true,
  false, not, ◌&&◌, none, some, arith, ltb, leb, ◌==◌, Bool-cases,
}
use buaa_os.Prelude.Outcome.{Outcome, Cmd, done, fail, panic, and_then, skip, pure, ◌>>=◌, ◌>>◌}
use buaa_os.Memory.{u32}
use buaa_os.Elf.{
  Phdr, Mapper, by2pg, least, seg_perm, load_pages, zero_pages, first_page, elf_load_seg,
}
use buaa_os.Elf.Calls.{PageCall, call_from, page_call, end_page, byte_of, holds, Full, page_bytes}

and_then-same {ℓ κ ι} :
    {S : Type ℓ} {A : Type κ} {B : Type ι} (o : Outcome S A) (f g : A → Cmd S B)
    → ((a : A) (s : S) → f a s ≡ g a s)
    → and_then o f ≡ and_then o g
and_then-same (done a s) f g h = h a s
and_then-same (fail e s) f g h = refl
and_then-same panic f g h = refl

and_then-twice {ℓ κ ι ν} :
    {S : Type ℓ} {A : Type κ} {B : Type ι} {C : Type ν} (o : Outcome S A) (f : A → Cmd S B)
    (g : B → Cmd S C) (h : A → Cmd S C)
    → ((a : A) (s : S) → and_then (f a s) g ≡ h a s)
    → and_then (and_then o f) g ≡ and_then o h
and_then-twice (done a s) f g h k = k a s
and_then-twice (fail e s) f g h k = refl
and_then-twice panic f g h k = refl

module _ {ℓ} {S : Type ℓ} (map_page : Mapper S) (ph : Phdr) (bin : ℕ) where
  pub ask : PageCall → Cmd S (Unit {0})
  ask c = map_page c.va c.offset (seg_perm ph) c.src c.len

  -- One call for each of `n` pages from page `p` on.
  pub each_page : ℕ → ℕ → Cmd S (Unit {0})
  each_page zero p = skip
  each_page (suc n) p = let rest = each_page n (p + 1) in do ask (page_call ph bin p); rest

  -- The byte `i` starts page `p`, from which on `n` are left; or none is left.
  abbrev At : ℕ → ℕ → ℕ → Type 0
  At i n p = (ph.p_vaddr + i ≡ p * by2pg × (n ≡ end_page ph bin - p)) ⊎ (ph.p_memsz ≤ i × (n ≡ 0))

  page_call-start : (i p : ℕ) → ph.p_vaddr + i ≡ p * by2pg → page_call ph bin p ≡ call_from ph bin i
  page_call-start i p at =
      let later : (p == ph.p_vaddr / by2pg && not (ph.p_vaddr % by2pg == 0)) ≡ false =
        ground arith in
      rw later (ap (call_from ph bin) (omega arith))

  module _ (small : ph.p_vaddr + ph.p_memsz + by2pg ≤ 2 ^ 32)
      (fits : ph.p_filesz ≤ ph.p_memsz) where
    no_wrap : (i : ℕ) → i < ph.p_memsz → u32 (ph.p_vaddr + i) ≡ ph.p_vaddr + i
    no_wrap i part = omega arith

    goes_on : (i : ℕ) → i < ph.p_memsz → u32 (i + by2pg) ≡ i + by2pg
    goes_on i part = omega arith

    starts : (i n p : ℕ) → i < ph.p_memsz → At i n p → ph.p_vaddr + i ≡ p * by2pg
    starts i n p part (inl (at, left)) = at
    starts i n p part (inr (over, left)) = absurd (omega arith)

    none_left : (i n p : ℕ) → ph.p_memsz ≤ i → At i n p → n ≡ 0
    none_left i n p over (inl (at, left)) = omega arith
    none_left i n p over (inr (behind, left)) = left

    some_left : (i p : ℕ) → i < ph.p_memsz → At i 0 p → ⊥
    some_left i p part (inl (at, left)) = omega arith
    some_left i p part (inr (over, left)) = omega arith

    next_at : (i n p : ℕ) → i < ph.p_memsz → At i (suc n) p → At (i + by2pg) n (p + 1)
    next_at i n p part (inl (at, left)) = inl (omega arith, omega arith)
    next_at i n p part (inr (over, left)) = absurd (omega arith)

    zero_each :
        (rounds i n p : ℕ) (t : S)
        → ph.p_memsz < i + rounds
        → 0 < rounds
        → ph.p_filesz ≤ i
        → At i n p
        → zero_pages map_page ph bin rounds i t ≡ each_page n p t
    unfolding zero_pages each_page ask
    zero_each zero i n p t enough more behind at = absurd (omega arith)
    zero_each (suc rounds) i zero p t enough more behind at = elim (Bool-cases (ltb i ph.p_memsz)) [
      | inl part ↦ absurd (some_left i p (ground arith) at)
      | inr over ↦ rw over refl
    ]
    zero_each (suc rounds) i (suc n) p t enough more behind at =
        elim (Bool-cases (ltb i ph.p_memsz)) [
          | inr over ↦ absurd (ground (arith, none_left i (suc n) p (ground arith) at))
          | inl inside ↦
              let part : i < ph.p_memsz = ground arith in
              let out : ltb i ph.p_filesz ≡ false = ground arith in
              rw
                (
                  inside,
                  no_wrap i part,
                  goes_on i part,
                  page_call-start i p (starts i (suc n) p part at),
                  out,
                )
                (and_then-same
                  (map_page (ph.p_vaddr + i) 0 (seg_perm ph) none
                    (least (u32 (ph.p_filesz + 2 ^ 32 - i)) by2pg) t)
                  (λ _. zero_pages map_page ph bin rounds (i + by2pg)) (λ _. each_page n (p + 1))
                  (λ _ u.
                    zero_each rounds (i + by2pg) n (p + 1) u (omega arith) (omega arith)
                      (omega arith) (next_at i n p part at)))
        ]

    load_each :
        (rounds i n p : ℕ) (t : S)
        → ph.p_filesz < i + rounds
        → 0 < rounds
        → At i n p
        → (load_pages map_page ph bin rounds i >>= zero_pages map_page ph bin (ph.p_memsz + 1)) t
          ≡ each_page n p t
    unfolding load_pages each_page ask
    load_each zero i n p t enough more at = absurd (omega arith)
    load_each (suc rounds) i zero p t enough more at = elim (Bool-cases (ltb i ph.p_filesz)) [
      | inl part ↦ absurd (some_left i p (ground arith) at)
      | inr over ↦
          rw over (zero_each (ph.p_memsz + 1) i 0 p t (omega arith) (omega arith) (ground arith) at)
    ]
    load_each (suc rounds) i (suc n) p t enough more at = elim (Bool-cases (ltb i ph.p_filesz)) [
      | inr over ↦
          rw over
            (zero_each (ph.p_memsz + 1) i (suc n) p t (omega arith) (omega arith) (ground arith) at)
      | inl inside ↦
          let part : i < ph.p_memsz = ground arith in
          rw
            (
              no_wrap i part,
              goes_on i part,
              page_call-start i p (starts i (suc n) p part at),
              inside,
            )
            (and_then-twice
              (map_page (ph.p_vaddr + i) 0 (seg_perm ph) (some (bin + i))
                (least (ph.p_filesz - i) by2pg) t)
              (λ _. load_pages map_page ph bin rounds (i + by2pg))
              (zero_pages map_page ph bin (ph.p_memsz + 1)) (λ _. each_page n (p + 1))
              (λ _ u.
                load_each rounds (i + by2pg) n (p + 1) u (omega arith) (ground arith)
                  (next_at i n p part at)))
    ]

    abbrev first : ℕ
    first = ph.p_vaddr / by2pg

    abbrev part_len : ℕ
    part_len = least ph.p_filesz (by2pg - ph.p_vaddr % by2pg)

    after_part :
        (n : ℕ)
        → Full ph bin
        → ph.p_vaddr % by2pg ≢ 0
        → suc n ≡ end_page ph bin - first
        → At part_len n (first + 1)
    after_part n (inl whole) part left = absurd (part whole)
    after_part n (inr (inl long)) part left = inl (ground arith, omega arith)
    after_part n (inr (inr all)) part left =
        elim (Bool-cases (leb by2pg (ph.p_vaddr % by2pg + ph.p_filesz))) [
          | inl long ↦ inl (ground arith, omega arith)
          | inr short ↦ inr (ground arith, ground arith)
        ]

    within_each :
        (n : ℕ) (s : S)
        → Full ph bin
        → (ph.p_vaddr % by2pg == 0) ≡ false
        → n ≡ end_page ph bin - first
        → elf_load_seg map_page ph bin s ≡ each_page n first s
    unfolding elf_load_seg first_page each_page ask
    within_each zero s full part left = absurd (ground arith)
    within_each (suc n) s full part left =
        let here : (first == first) ≡ true = ground arith in
        rw (here, part)
          (and_then-twice
            (map_page ph.p_vaddr (ph.p_vaddr % by2pg) (seg_perm ph) (some bin) part_len s)
            (λ _. pure part_len)
            (λ i.
              load_pages map_page ph bin (ph.p_filesz + 1) i
              >>= zero_pages map_page ph bin (ph.p_memsz + 1))
            (λ _. each_page n (first + 1))
            (λ _ t.
              load_each (ph.p_filesz + 1) part_len n (first + 1) t (ground arith) (omega arith)
                (after_part n full (ground arith) left)))

    -- A segment that ends at least a page below 2^32 and is not shorter in memory than in the file, and that does not
    -- end its bytes of the file within a first page that it does not start with, unless it ends there: whatever the
    -- callback does, `elf_load_seg` is one loop over the pages that the segment meets, from the first to the last, with
    -- one call each, and stops at the first call that fails. For each byte of the segment, what the call for its page
    -- asks to put there, on a page of zeros, is that of the file, or 0 behind these.
    pub elf_load_seg-each_page :
        (image : ℕ → ℕ) (s : S)
        → Full ph bin
        → (elf_load_seg map_page ph bin s
            ≡ each_page (end_page ph bin - ph.p_vaddr / by2pg) (ph.p_vaddr / by2pg) s)
          × ((k : ℕ)
              → holds ph bin image
                  (page_call ph bin ((ph.p_vaddr + k) / by2pg))
                  ((ph.p_vaddr + k) % by2pg)
                ≡ byte_of ph bin image k)
    unfolding elf_load_seg first_page
    elf_load_seg-each_page image s full = (loads, page_bytes ph bin image)
      where
        loads :
            elf_load_seg map_page ph bin s
            ≡ each_page (end_page ph bin - ph.p_vaddr / by2pg) (ph.p_vaddr / by2pg) s
        loads = elim (Bool-cases (ph.p_vaddr % by2pg == 0)) [
          | inr part ↦ within_each (end_page ph bin - first) s full part refl
          | inl whole ↦ rw whole (
              load_each (ph.p_filesz + 1) 0 (end_page ph bin - first) first s (omega arith)
                (omega arith) (inl (ground arith, refl)))
        ]
