-- ===== src/Memory/Maps.antt =====
-- What `page_insert` of kern/pmap.c does to the address spaces.
use buaa_os.Prelude.{
  ℕ, ◌<◌, ◌^◌, ◌≡◌, ◌≢◌, ◌⊎◌, inl, inr, refl, true, false, some, List, [], ◌∷◌, arith, update,
  Bool-cases, List-cases, sym, has, subst, fun_ext, ◌∙◌,
}
use buaa_os.Prelude.Outcome.{Outcome, e_no_mem, Ends}
use buaa_os.Memory.{pte_d, Mem, pdx, ptx, ppn_of, valid, entry, page_insert}
use buaa_os.Memory.Entry.{entry-valid, ppn_of-entry}
use buaa_os.Memory.Mapping.{put, vpn, HasTables, mapping-put, mapping-put_other, mapping-add_table}
use buaa_os.Memory.Remove.{flushed}
use buaa_os.Memory.Valid.{Role, root, table, user_top, IsValid, mapping}
use buaa_os.Memory.Walk.{add_table, frame-add_table}
use buaa_os.Memory.Insert.{
  page_insert_new, page_insert_same, page_insert_moved, page_insert_full, page_insert_created,
}
use native.Mathlib.Decide.{ℕ_discrete}

-- The other pages of every space are as they were.
abbrev pub Elsewhere : (ℕ → Role) → ℕ → ℕ → Mem → Mem → Type 0
Elsewhere role r va s s' =
    (q wa : ℕ)
    → role q ≡ root
    → pdx wa < user_top
    → ((q ≢ r) ⊎ (vpn wa ≢ vpn va))
    → mapping s' q wa ≡ mapping s q wa

module _ (s : Mem) (role : ℕ → Role) (ok : IsValid s role) (r asid pp va perm : ℕ)
    (is_root : role r ≡ root) (low : pdx va < user_top) where
  abbrev u : ℕ
  u = ppn_of (s.frame r (pdx va))

  mapped_root : valid (s.frame r (pdx va)) ≡ true → u ≢ r
  mapped_root v = ground (arith, ok.table_role r (pdx va))

  -- A write of a valid word into the table that is there.
  abbrev pub Maps : Mem → Type 0
  Maps s' = (mapping s' r va ≡ some (entry pp perm)) × Elsewhere role r va s s'

  abbrev pub Result : Outcome Mem (Unit {0}) → Type 0
  Result =
      Ends (λ _ s'. Maps s')
        (λ e s'.
          (e ≡ e_no_mem)
          × (s.page_free_list ≡ [])
          × (valid (s.frame r (pdx va)) ≡ false)
          × (s'.frame ≡ s.frame))

  put-Maps : valid (s.frame r (pdx va)) ≡ true → Maps (put s u (ptx va) (entry pp perm))
  put-Maps v = (
    mapping-put s r va (entry pp perm) v (mapped_root v) ∙ rw (entry-valid pp perm),
    λ q wa hq lq apart.
        mapping-put_other s role r va q wa (entry pp perm) ok.table_role is_root hq low lq v apart,
  )

  put_twice : (t i x y p j : ℕ) → (put (put s t i x) t i y).frame p j ≡ (put s t i y).frame p j
  put_twice t i x y p j = ground arith

  moved-Maps :
      valid (s.frame r (pdx va)) ≡ true → Maps (put (put s u (ptx va) 0) u (ptx va) (entry pp perm))
  moved-Maps v =
      subst (λ f. Maps (record s { frame = f }))
        (sym (fun_ext λ p. fun_ext λ j. put_twice u (ptx va) 0 (entry pp perm) p j)) (put-Maps v)

  module _ (t : ℕ) (rest : List ℕ) (v : valid (s.frame r (pdx va)) ≡ false)
      (e : s.page_free_list ≡ t ∷ rest) where
    spare : has t s.page_free_list ≡ true
    spare = rw e (ground arith)

    spare_small : t < 2 ^ 20
    spare_small = omega (arith, ok.free_bound t spare, ok.small)

    spare_ne : t ≢ r
    spare_ne = ground (arith, ok.free_role t spare)

    abbrev grown : Mem
    grown = add_table (flushed s asid va) r va t rest

    grown_entry : grown.frame r (pdx va) ≡ entry t pte_d
    grown_entry =
        ground (arith, frame-add_table (flushed s asid va) r va t r (pdx va) rest spare_ne)

    grown_page : ppn_of (grown.frame r (pdx va)) ≡ t
    grown_page = rw grown_entry (ppn_of-entry t pte_d spare_small (omega arith))

    grown_valid : valid (grown.frame r (pdx va)) ≡ true
    grown_valid = rw grown_entry (entry-valid t pte_d)

    abbrev role' : ℕ → Role
    role' = update role t (table r (pdx va))

    still_root : (q : ℕ) → role q ≡ root → role' q ≡ root
    still_root q h = ground (arith, ok.free_role t spare)

    was_root : (q : ℕ) → role' q ≡ root → role q ≡ root
    was_root q h = ground arith

    grown-HasTables : HasTables grown role'
    grown-HasTables q d h low' w = ground (
      arith,
      was_root q h,
      ok.free_role t spare,
      ok.table_role q d,
      frame-add_table (flushed s asid va) r va t q d rest spare_ne,
      grown_page,
    )

    grown-mapping :
        (q wa : ℕ) → role q ≡ root → pdx wa < user_top → mapping grown q wa ≡ mapping s q wa
    unfolding mapping
    grown-mapping q wa hq lq =
        mapping-add_table (flushed s asid va) role r va t q wa rest ok.table_role is_root hq
          (ok.free_role t spare) spare_small lq v

    created-Maps : Maps (put grown t (ptx va) (entry pp perm))
    created-Maps =
        subst (λ n. Maps (put grown n (ptx va) (entry pp perm))) grown_page
          (
            mapping-put grown r va (entry pp perm) grown_valid (rw grown_page spare_ne)
                ∙ rw (entry-valid pp perm),
            λ q wa hq lq apart.
                mapping-put_other grown role' r va q wa (entry pp perm) grown-HasTables
                  (still_root r is_root) (still_root q hq) low lq grown_valid apart
                ∙ grown-mapping q wa hq lq,
          )

    insert_created-Maps : Result (page_insert r asid pp va perm s)
    unfolding mapping
    insert_created-Maps =
        rw
          (page_insert_created s r asid pp va perm t rest v e (ok.free_bound t spare) ok.small
            (ok.free_unused t spare) spare_ne)
          created-Maps

  module _ (v : valid (s.frame r (pdx va)) ≡ true) where
    bound : u < s.npage
    bound = ok.table_bound r (pdx va) is_root low v

    role_u : role u ≡ table r (pdx va)
    role_u = ok.table_role r (pdx va) is_root low v

    insert_moved-Maps :
        valid (s.frame u (ptx va)) ≡ true
        → ppn_of (s.frame u (ptx va)) ≢ pp
        → Result (page_insert r asid pp va perm s)
    unfolding mapping
    insert_moved-Maps w ne =
        rw
          (page_insert_moved s r asid pp va perm v bound w
            (ok.page_bound u r (pdx va) (ptx va) role_u (omega arith) w) ne (mapped_root v)
            (ok.page_used u r (pdx va) (ptx va) role_u (omega arith) w))
          (moved-Maps v)

    insert_same-Maps :
        valid (s.frame u (ptx va)) ≡ true
        → ppn_of (s.frame u (ptx va)) ≡ pp
        → Result (page_insert r asid pp va perm s)
    unfolding mapping
    insert_same-Maps w eq =
        rw
          (page_insert_same s r asid pp va perm v bound w
            (ok.page_bound u r (pdx va) (ptx va) role_u (omega arith) w) eq)
          (put-Maps v)

    insert_new-Maps : valid (s.frame u (ptx va)) ≡ false → Result (page_insert r asid pp va perm s)
    unfolding mapping
    insert_new-Maps w = rw (page_insert_new s r asid pp va perm v bound w) (put-Maps v)

    insert_present-Maps : Result (page_insert r asid pp va perm s)
    insert_present-Maps = elim (Bool-cases (valid (s.frame u (ptx va)))) [
      | inl w ↦ elim (ℕ_discrete (ppn_of (s.frame u (ptx va))) pp) [
        | yes eq ↦ insert_same-Maps w eq
        | no ne ↦ insert_moved-Maps w ne
      ]
      | inr w ↦ insert_new-Maps w
    ]

  insert_absent-Maps : valid (s.frame r (pdx va)) ≡ false → Result (page_insert r asid pp va perm s)
  insert_absent-Maps v = elim (List-cases s.page_free_list) [
    | inl e ↦ rw (page_insert_full s r asid pp va perm v e) (refl, e, v, refl)
    | inr (t, rest, e) ↦ insert_created-Maps t rest v e
  ]

  -- In a well-formed memory, for a page directory and an address below UTOP: `page_insert` maps
  -- the page at the address, with the permission asked for, and no other address of any space is
  -- mapped otherwise than before. It fails only if it needs a page table and no page is free; then
  -- no table has changed. It does not panic.
  pub page_insert-Maps : Result (page_insert r asid pp va perm s)
  page_insert-Maps = elim (Bool-cases (valid (s.frame r (pdx va)))) [
    | inl v ↦ insert_present-Maps v
    | inr v ↦ insert_absent-Maps v
  ]
