-- ===== src/Memory/Insert.antt =====
-- `page_insert` of kern/pmap.c.
use buaa_os.Prelude.{ℕ, ◌+◌, ◌≤◌, ◌<◌, ◌^◌, ◌≡◌, ◌≢◌, true, false, List, [], ◌∷◌, arith, update}
use buaa_os.Prelude.Outcome.{e_no_mem, done, fail}
use buaa_os.Memory.{
  Mem, u16, pdx, ptx, ppn_of, valid, entry, present, pa2page, fill_entry, map_page, replace_entry,
  page_insert, tlb_invalidate,
}
use buaa_os.Memory.Mapping.{put}
use buaa_os.Memory.Remove.{flushed, dropped, page_remove_mapped}
use buaa_os.Memory.Walk.{
  pgdir_walk_present, pgdir_walk_absent, pgdir_walk_full, pgdir_walk_create, add_table,
}

abbrev pub filled : Mem → ℕ → ℕ → ℕ → ℕ → Mem
filled s t i pp perm = record s {
  frame = update s.frame t (update (s.frame t) i (entry pp perm));
  pp_ref = update s.pp_ref pp (u16 (s.pp_ref pp + 1));
}

pub map_page_present :
    (s : Mem) (r asid pp va perm : ℕ)
    → valid (s.frame r (pdx va)) ≡ true
    → ppn_of (s.frame r (pdx va)) < s.npage
    → map_page r asid pp va perm s
      ≡ done tt (filled (flushed s asid va) (ppn_of (s.frame r (pdx va))) (ptx va) pp perm)
unfolding map_page tlb_invalidate fill_entry
map_page_present s r asid pp va perm v b = rw (pgdir_walk_present (flushed s asid va) r va true v b)

pub map_page_full :
    (s : Mem) (r asid pp va perm : ℕ)
    → valid (s.frame r (pdx va)) ≡ false
    → s.page_free_list ≡ []
    → map_page r asid pp va perm s ≡ fail e_no_mem (flushed s asid va)
unfolding map_page tlb_invalidate fill_entry
map_page_full s r asid pp va perm v e = rw (pgdir_walk_full (flushed s asid va) r va v e)

pub map_page_create :
    (s : Mem) (r asid pp va perm t : ℕ) (rest : List ℕ)
    → valid (s.frame r (pdx va)) ≡ false
    → s.page_free_list ≡ t ∷ rest
    → t < s.npage
    → s.npage ≤ 2 ^ 20
    → s.pp_ref t ≡ 0
    → t ≢ r
    → map_page r asid pp va perm s
      ≡ done tt (filled (add_table (flushed s asid va) r va t rest) t (ptx va) pp perm)
unfolding map_page tlb_invalidate fill_entry
map_page_create s r asid pp va perm t rest v e b small unused other =
    rw (pgdir_walk_create (flushed s asid va) r va t rest v e b small unused other)

module _ (s : Mem) (r asid pp va perm : ℕ) (v : valid (s.frame r (pdx va)) ≡ true)
    (b : ppn_of (s.frame r (pdx va)) < s.npage) where
  abbrev pub t : ℕ
  t = ppn_of (s.frame r (pdx va))

  pub page_insert_new :
      valid (s.frame t (ptx va)) ≡ false
      → page_insert r asid pp va perm s ≡ done tt (filled (flushed s asid va) t (ptx va) pp perm)
  unfolding page_insert present replace_entry
  page_insert_new w =
      rw (pgdir_walk_present s r va false v b) (rw w (map_page_present s r asid pp va perm v b))

  pub page_insert_same :
      valid (s.frame t (ptx va)) ≡ true
      → ppn_of (s.frame t (ptx va)) < s.npage
      → ppn_of (s.frame t (ptx va)) ≡ pp
      → page_insert r asid pp va perm s
        ≡ done tt (put (flushed s asid va) t (ptx va) (entry pp perm))
  unfolding page_insert present replace_entry pa2page tlb_invalidate
  page_insert_same w c e = rw (pgdir_walk_present s r va false v b) (ground arith)

  pub page_insert_moved :
      valid (s.frame t (ptx va)) ≡ true
      → ppn_of (s.frame t (ptx va)) < s.npage
      → ppn_of (s.frame t (ptx va)) ≢ pp
      → t ≢ r
      → 0 < s.pp_ref (ppn_of (s.frame t (ptx va)))
      → page_insert r asid pp va perm s
        ≡ done tt (
            filled
              (flushed
                (flushed (put (dropped s (ppn_of (s.frame t (ptx va)))) t (ptx va) 0) asid va)
                asid
                va)
              t
              (ptx va)
              pp
              perm)
  unfolding page_insert present replace_entry pa2page
  page_insert_moved w c e other used = ground (
    arith,
    pgdir_walk_present s r va false v b,
    page_remove_mapped s r va v b w c used asid,
    map_page_present (flushed (put (dropped s (ppn_of (s.frame t (ptx va)))) t (ptx va) 0) asid va)
        r asid pp va perm,
  )

pub page_insert_full :
    (s : Mem) (r asid pp va perm : ℕ)
    → valid (s.frame r (pdx va)) ≡ false
    → s.page_free_list ≡ []
    → page_insert r asid pp va perm s ≡ fail e_no_mem (flushed s asid va)
unfolding page_insert present replace_entry
page_insert_full s r asid pp va perm v e =
    rw (pgdir_walk_absent s r va v) (map_page_full s r asid pp va perm v e)

pub page_insert_created :
    (s : Mem) (r asid pp va perm t : ℕ) (rest : List ℕ)
    → valid (s.frame r (pdx va)) ≡ false
    → s.page_free_list ≡ t ∷ rest
    → t < s.npage
    → s.npage ≤ 2 ^ 20
    → s.pp_ref t ≡ 0
    → t ≢ r
    → page_insert r asid pp va perm s
      ≡ done tt (filled (add_table (flushed s asid va) r va t rest) t (ptx va) pp perm)
unfolding page_insert present replace_entry
page_insert_created s r asid pp va perm t rest v e b small unused other =
    rw (pgdir_walk_absent s r va v)
      (map_page_create s r asid pp va perm t rest v e b small unused other)
