-- ===== src/Elf/Calls.antt =====
-- What `elf_load_seg` of lib/elfloader.c asks of its callback for each page that a segment meets.
use buaa_os.Prelude.{
  ℕ, ◌+◌, ◌-◌, ◌*◌, ◌/◌, ◌%◌, ◌^◌, ◌<◌, ◌≤◌, ◌≡◌, ◌⊎◌, refl, ap, ◌∙◌, inl, inr, true, false, not,
  ◌&&◌, Option, none, some, arith, ltb, leb, ◌==◌, if◌then◌else◌, Bool-cases,
}
use buaa_os.Memory.{u32}
use buaa_os.Elf.{Phdr, by2pg, least}

-- What a call of `map_page` asks for, without the permission.
pub record PageCall : Type 0 where
  pub va : ℕ
  pub offset : ℕ
  pub src : Option ℕ
  pub len : ℕ

-- What a new page holds at `k`: the bytes from `src` on, at `offset` and for `len` bytes, and zeros elsewhere.
pub content : (ℕ → ℕ) → ℕ → Option ℕ → ℕ → ℕ → ℕ
content image offset none len k = 0
content image offset (some src) len k =
    if leb offset k && ltb k (offset + len) then image (src + (k - offset)) else 0

module _ (ph : Phdr) (bin : ℕ) where
  -- The page that the byte `i` of the segment starts.
  abbrev pub call_from : ℕ → PageCall
  call_from i = record {
    va = ph.p_vaddr + i;
    offset = 0;
    src = if ltb i ph.p_filesz then some (bin + i) else none;
    len =
        least (if ltb i ph.p_filesz then ph.p_filesz - i else u32 (ph.p_filesz + 2 ^ 32 - i)) by2pg;
  }

  -- The page in which the segment starts, behind the start of the page.
  abbrev pub call_within : PageCall
  call_within = record {
    va = ph.p_vaddr;
    offset = ph.p_vaddr % by2pg;
    src = some bin;
    len = least ph.p_filesz (by2pg - ph.p_vaddr % by2pg);
  }

  -- What page `p` is asked to hold.
  abbrev pub page_call : ℕ → PageCall
  page_call p =
      if p == ph.p_vaddr / by2pg && not (ph.p_vaddr % by2pg == 0)
      then call_within
      else call_from (p * by2pg - ph.p_vaddr)

  -- The number of the last page that the segment meets, and one more.
  abbrev pub end_page : ℕ
  end_page = (ph.p_vaddr + ph.p_memsz + (by2pg - 1)) / by2pg

  -- The byte of the segment.
  abbrev pub byte_of : (ℕ → ℕ) → ℕ → ℕ
  byte_of image k = if ltb k ph.p_filesz then image (bin + k) else 0

  abbrev pub holds : (ℕ → ℕ) → PageCall → ℕ → ℕ
  holds image c k = content image c.offset c.src c.len k

  -- The first page is full, or the segment ends in it without zeros, or it starts with a page.
  abbrev pub Full : Type 0
  Full =
      (ph.p_vaddr % by2pg ≡ 0)
      ⊎ ((by2pg ≤ ph.p_vaddr % by2pg + ph.p_filesz) ⊎ (ph.p_filesz ≡ ph.p_memsz))

  from_bytes :
      (image : ℕ → ℕ) (i j : ℕ) → j < by2pg → holds image (call_from i) j ≡ byte_of image (i + j)
  unfolding content
  from_bytes image i j low = elim (Bool-cases (ltb i ph.p_filesz)) [
    | inr behind ↦ let out : ltb (i + j) ph.p_filesz ≡ false = ground arith in rw (behind, out) refl
    | inl part ↦
        let place : bin + i + (j - 0) ≡ bin + (i + j) = omega arith in
        elim (Bool-cases (ltb (i + j) ph.p_filesz)) [
          | inl within ↦
              let counted : (leb 0 j && ltb j (0 + least (ph.p_filesz - i) by2pg)) ≡ true =
                ground arith in
              rw (part, within, counted) (ap image place)
          | inr behind ↦
              let left : (leb 0 j && ltb j (0 + least (ph.p_filesz - i) by2pg)) ≡ false =
                ground arith in
              rw (part, behind, left) refl
        ]
  ]

  within_bytes :
      (image : ℕ → ℕ) (k : ℕ)
      → k < by2pg - ph.p_vaddr % by2pg
      → holds image call_within (ph.p_vaddr % by2pg + k) ≡ byte_of image k
  unfolding content
  within_bytes image k low = elim (Bool-cases (ltb k ph.p_filesz)) [
    | inl within ↦
        let inside : (leb (ph.p_vaddr % by2pg) (ph.p_vaddr % by2pg + k)
              && ltb (ph.p_vaddr % by2pg + k)
                  (ph.p_vaddr % by2pg + least ph.p_filesz (by2pg - ph.p_vaddr % by2pg)))
            ≡ true =
          ground arith in
        rw (within, inside) (ap (λ j. image (bin + j)) (omega arith))
    | inr behind ↦
        let left : (leb (ph.p_vaddr % by2pg) (ph.p_vaddr % by2pg + k)
              && ltb (ph.p_vaddr % by2pg + k)
                  (ph.p_vaddr % by2pg + least ph.p_filesz (by2pg - ph.p_vaddr % by2pg)))
            ≡ false =
          ground arith in
        rw (behind, left) refl
  ]

  -- The byte `k` of the segment is where the plan puts it.
  pub page_bytes :
      (image : ℕ → ℕ) (k : ℕ)
      → holds image (page_call ((ph.p_vaddr + k) / by2pg)) ((ph.p_vaddr + k) % by2pg)
        ≡ byte_of image k
  page_bytes image k =
      elim (Bool-cases
        ((ph.p_vaddr + k) / by2pg == ph.p_vaddr / by2pg && not (ph.p_vaddr % by2pg == 0))) [
          | inl first ↦
              let same : (ph.p_vaddr + k) / by2pg ≡ ph.p_vaddr / by2pg = ground arith in
              let at : (ph.p_vaddr + k) % by2pg ≡ ph.p_vaddr % by2pg + k = omega arith in
              rw (first, at) (within_bytes image k (omega arith))
          | inr later ↦
              let i = (ph.p_vaddr + k) / by2pg * by2pg - ph.p_vaddr in
              let behind : ph.p_vaddr ≤ (ph.p_vaddr + k) / by2pg * by2pg = ground arith in
              rw later (
                from_bytes image i ((ph.p_vaddr + k) % by2pg) (omega arith)
                ∙ ap (byte_of image) (omega arith))
        ]
