-- ===== src/Memory/Unmap.antt =====
-- `page_lookup` and `page_remove` of kern/pmap.c on a well-formed memory.
use buaa_os.Prelude.{
  ℕ, ◌<◌, ◌≡◌, ◌⊎◌, inl, inr, refl, true, false, Option, none, some, arith, Bool-cases,
}
use buaa_os.Prelude.Outcome.{Outcome, done, Returns}
use buaa_os.Memory.{
  Mem, Ptr, pdx, ptx, ppn_of, valid, page_lookup, page_remove, remove_entry, present, lookup_entry,
}
use buaa_os.Memory.Mapping.{mapping-put, mapping-put_other}
use buaa_os.Memory.Maps.{Elsewhere}
use buaa_os.Memory.Remove.{page_lookup_mapped, page_lookup_empty, page_remove_mapped}
use buaa_os.Memory.Valid.{Role, root, table, user_top, IsValid, mapping}
use buaa_os.Memory.Walk.{pgdir_walk_absent}

module _ (s : Mem) (role : ℕ → Role) (ok : IsValid s role) (r va : ℕ) (is_root : role r ≡ root)
    (low : pdx va < user_top) where
  abbrev u : ℕ
  u = ppn_of (s.frame r (pdx va))

  abbrev pte : ℕ
  pte = s.frame u (ptx va)

  -- The page found is that of the mapping, and nothing changes.
  abbrev pub LooksUp : Outcome Mem (Option (ℕ × Ptr)) → Type 0
  LooksUp o =
      ((mapping s r va ≡ none) × (o ≡ done none s))
      ⊎ ((e : ℕ) × (mapping s r va ≡ some e)
          × (ppn_of e < s.npage)
          × (o ≡ done (some (ppn_of e, (u, ptx va))) s))

  absent_lookup : valid (s.frame r (pdx va)) ≡ false → page_lookup r va s ≡ done none s
  unfolding page_lookup present lookup_entry
  absent_lookup v = rw (pgdir_walk_absent s r va v)

  bound : valid (s.frame r (pdx va)) ≡ true → u < s.npage
  bound v = ok.table_bound r (pdx va) is_root low v

  role_u : valid (s.frame r (pdx va)) ≡ true → role u ≡ table r (pdx va)
  role_u v = ok.table_role r (pdx va) is_root low v

  page_low : valid (s.frame r (pdx va)) ≡ true → valid pte ≡ true → ppn_of pte < s.npage
  page_low v w = ok.page_bound u r (pdx va) (ptx va) (role_u v) (omega arith) w

  -- In a well-formed memory, for a page directory and an address below UTOP: `page_lookup` finds
  -- the page that the tables map, or NULL, without a change or a panic.
  pub page_lookup-LooksUp : LooksUp (page_lookup r va s)
  unfolding mapping
  page_lookup-LooksUp = elim (Bool-cases (valid (s.frame r (pdx va)))) [
    | inr v ↦ inl (rw v, absent_lookup v)
    | inl v ↦ elim (Bool-cases (valid pte)) [
      | inl w ↦
          inr (pte, rw (v, w), page_low v w, page_lookup_mapped s r va v (bound v) w (page_low v w))
      | inr w ↦ inl (rw (v, w), page_lookup_empty s r va v (bound v) w)
    ]
  ]

  abbrev pub Unmaps : Unit {0} → Mem → Type 0
  Unmaps _ s' = (mapping s' r va ≡ none) × Elsewhere role r va s s'

  module _ (asid : ℕ) where
    removed-Unmaps :
        valid (s.frame r (pdx va)) ≡ true
        → valid pte ≡ true
        → Returns Unmaps (page_remove r asid va s)
    unfolding mapping
    removed-Unmaps v w =
        rw
          (page_remove_mapped s r va v (bound v) w (page_low v w)
            (ok.page_used u r (pdx va) (ptx va) (role_u v) (omega arith) w) asid)
          (
            mapping-put s r va 0 v (ground (arith, role_u v)),
            λ q wa hq lq apart.
                mapping-put_other s role r va q wa 0 ok.table_role is_root hq low lq v apart,
          )

    unchanged :
        mapping s r va ≡ none
        → page_lookup r va s ≡ done none s
        → Returns Unmaps (page_remove r asid va s)
    unfolding page_remove remove_entry
    unchanged e at = rw at (e, λ q wa hq lq apart. refl)

    -- In a well-formed memory, for a page directory and an address below UTOP: `page_remove`
    -- unmaps the address, and no other address of any space. It does not panic.
    pub page_remove-Unmaps : Returns Unmaps (page_remove r asid va s)
    unfolding mapping
    page_remove-Unmaps = elim (Bool-cases (valid (s.frame r (pdx va)))) [
      | inr v ↦ unchanged (rw v) (absent_lookup v)
      | inl v ↦ elim (Bool-cases (valid pte)) [
        | inl w ↦ removed-Unmaps v w
        | inr w ↦ unchanged (rw (v, w)) (page_lookup_empty s r va v (bound v) w)
      ]
    ]
