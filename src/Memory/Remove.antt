-- ===== src/Memory/Remove.antt =====
-- `page_lookup`, `page_decref` and `page_remove` of kern/pmap.c.
use buaa_os.Prelude.{
  ℕ, ◌-◌, ◌<◌, ◌^◌, ◌≡◌, true, false, none, some, ◌∷◌, arith, update, bit_or, ◌*◌, if◌then◌else◌,
  ◌==◌,
}
use buaa_os.Prelude.Outcome.{done, panic}
use buaa_os.Memory.{
  Mem, u32, pdx, ptx, ppn_of, pte_addr, valid, present, lookup_entry, page_lookup, pa2page,
  page_decref, remove_entry, page_remove, tlb_invalidate,
}
use buaa_os.Memory.Mapping.{put}
use buaa_os.Memory.Walk.{pgdir_walk_present}

-- One reference to `p` less; the page goes to the head of the free list with its last one.
abbrev pub dropped : Mem → ℕ → Mem
dropped s p = record s {
  pp_ref = update s.pp_ref p (s.pp_ref p - 1);
  page_free_list = if s.pp_ref p - 1 == 0 then p ∷ s.page_free_list else s.page_free_list;
}

abbrev pub flushed : Mem → ℕ → ℕ → Mem
flushed s asid va = record s { tlb = bit_or (pte_addr va) (u32 (asid * 2 ^ 6)) ∷ s.tlb }

pub page_decref_lem : (s : Mem) (p : ℕ) → 0 < s.pp_ref p → page_decref p s ≡ done tt (dropped s p)
unfolding page_decref
page_decref_lem s p h = ground arith

pub page_decref_unused : (s : Mem) (p : ℕ) → s.pp_ref p ≡ 0 → page_decref p s ≡ panic
unfolding page_decref
page_decref_unused s p h = ground arith

module _ (s : Mem) (r va : ℕ) (v : valid (s.frame r (pdx va)) ≡ true)
    (b : ppn_of (s.frame r (pdx va)) < s.npage) where
  pub page_lookup_mapped :
      valid (s.frame (ppn_of (s.frame r (pdx va))) (ptx va)) ≡ true
      → ppn_of (s.frame (ppn_of (s.frame r (pdx va))) (ptx va)) < s.npage
      → page_lookup r va s
        ≡ done
            (some (
              ppn_of (s.frame (ppn_of (s.frame r (pdx va))) (ptx va)),
              (ppn_of (s.frame r (pdx va)), ptx va),
            ))
            s
  unfolding page_lookup present lookup_entry pa2page
  page_lookup_mapped w c = rw (pgdir_walk_present s r va false v b) (ground arith)

  pub page_lookup_empty :
      valid (s.frame (ppn_of (s.frame r (pdx va))) (ptx va)) ≡ false
      → page_lookup r va s ≡ done none s
  unfolding page_lookup present lookup_entry
  page_lookup_empty w = rw (pgdir_walk_present s r va false v b) (ground arith)

  pub page_remove_mapped :
      valid (s.frame (ppn_of (s.frame r (pdx va))) (ptx va)) ≡ true
      → ppn_of (s.frame (ppn_of (s.frame r (pdx va))) (ptx va)) < s.npage
      → 0 < s.pp_ref (ppn_of (s.frame (ppn_of (s.frame r (pdx va))) (ptx va)))
      → (asid : ℕ)
      → page_remove r asid va s
        ≡ done tt (
            flushed
              (put
                (dropped s (ppn_of (s.frame (ppn_of (s.frame r (pdx va))) (ptx va))))
                (ppn_of (s.frame r (pdx va)))
                (ptx va)
                0)
              asid
              va)
  unfolding page_remove remove_entry tlb_invalidate
  page_remove_mapped w c used asid =
      rw (page_lookup_mapped w c)
        (rw (page_decref_lem s (ppn_of (s.frame (ppn_of (s.frame r (pdx va))) (ptx va))) used))
