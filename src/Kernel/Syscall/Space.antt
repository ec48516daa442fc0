-- ===== src/Kernel/Syscall/Space.antt =====
-- The system calls of kern/syscall_all.c that change an address space.
use buaa_os.Prelude.{ℕ, ◌<◌, ◌≡◌, ◌⊎◌, inl, inr, refl, true, false, none, some, [], arith}
use buaa_os.Prelude.Outcome.{Errno, e_no_mem, e_inval, done, Ends, Returns, lift-Ends}
use buaa_os.Memory.{Ptr, pdx, ptx, ppn_of, entry, page_insert, page_lookup, page_remove}
use buaa_os.Memory.Maps.{Elsewhere, page_insert-Maps}
use buaa_os.Memory.Unmap.{page_lookup-LooksUp, page_remove-Unmaps}
use buaa_os.Memory.Valid.{Role, root, user_top, IsValid, mapping}
use buaa_os.Kernel.{Kernel}
use buaa_os.Kernel.Envs.{envid2env}
use buaa_os.Kernel.Syscall.{is_illegal_va, sys_mem_map, sys_mem_unmap, map_found}

-- A legal address lies below the kernel's part of the directory.
legal_low : (va : ℕ) → is_illegal_va va ≡ false → pdx va < user_top
unfolding is_illegal_va
legal_low va h = ground arith

-- The memory of the kernel is well formed, and the environment's directory is one.
pub record Space (k : Kernel) (role : ℕ → Role) (e : ℕ) : Type 0 where
  pub ok : IsValid k.mem role
  pub is_root : role (k.envs e).pgdir ≡ root

module _ (k : Kernel) (role : ℕ → Role) (e envid : ℕ) (sp : Space k role e)
    (found : envid2env envid true k ≡ done e k) where
  abbrev pub Unmapped : ℕ → Unit {0} → Kernel → Type 0
  Unmapped va _ k' =
      (mapping k'.mem (k.envs e).pgdir va ≡ none) × Elsewhere role (k.envs e).pgdir va k.mem k'.mem

  -- For an environment that the caller may change, in a well-formed memory, and a legal address:
  -- `sys_mem_unmap` leaves the address unmapped and changes no other address of any space.
  sys_mem_unmap-Unmaps :
      (va : ℕ) → is_illegal_va va ≡ false → Returns (Unmapped va) (sys_mem_unmap envid va k)
  unfolding sys_mem_unmap
  sys_mem_unmap-Unmaps va legal =
      rw (legal, found)
        (lift-Ends _ _ (Unmapped va) (λ _ _. ⊥) (λ m. record k { mem = m })
          (page_remove (k.envs e).pgdir (k.envs e).asid va k.mem)
          (page_remove-Unmaps k.mem role sp.ok (k.envs e).pgdir va sp.is_root (legal_low va legal)
            (k.envs e).asid)
          (λ a s h. h) (λ r s h. h))

module _ (k : Kernel) (role : ℕ → Role) (src dst srcid dstid srcva dstva perm : ℕ)
    (from : Space k role src) (to : Space k role dst) (at : envid2env srcid true k ≡ done src k)
    (into : envid2env dstid true k ≡ done dst k) (legal : is_illegal_va srcva ≡ false)
    (fits : is_illegal_va dstva ≡ false) where
  -- The destination maps the page of the source, and no other address has changed.
  abbrev pub Mapped : Unit {0} → Kernel → Type 0
  Mapped _ k' =
      (pte : ℕ) × (mapping k.mem (k.envs src).pgdir srcva ≡ some pte)
      × (mapping k'.mem (k.envs dst).pgdir dstva ≡ some (entry (ppn_of pte) perm))
      × Elsewhere role (k.envs dst).pgdir dstva k.mem k'.mem

  abbrev pub NotMapped : Errno → Kernel → Type 0
  NotMapped r k' =
      ((r ≡ e_inval) × (mapping k.mem (k.envs src).pgdir srcva ≡ none))
      ⊎ ((r ≡ e_no_mem) × (k.mem.page_free_list ≡ []))

  maps_found :
      (pte : ℕ)
      → mapping k.mem (k.envs src).pgdir srcva ≡ some pte
      → (ptr : Ptr)
      → page_lookup (k.envs src).pgdir srcva k.mem ≡ done (some (ppn_of pte, ptr)) k.mem
      → Ends Mapped NotMapped (sys_mem_map srcid srcva dstid dstva perm k)
  unfolding sys_mem_map map_found
  maps_found pte m ptr e =
      rw (legal, fits, at, into, e)
        (lift-Ends _ _ Mapped NotMapped (λ m. record k { mem = m })
          (page_insert (k.envs dst).pgdir (k.envs dst).asid (ppn_of pte) dstva perm k.mem)
          (page_insert-Maps k.mem role to.ok (k.envs dst).pgdir (k.envs dst).asid (ppn_of pte) dstva
            perm to.is_root (legal_low dstva fits))
          (λ _ s (new, others). (pte, m, new, others)) (λ r s (is, empty, _, _). inr (is, empty)))

  -- For two environments that the caller may change, in a well-formed memory, and legal addresses:
  -- `sys_mem_map` maps at the destination the page that the source maps, with the permission asked
  -- for, and changes no other address of any space. It returns -E_INVAL only if the source maps no
  -- page, and -E_NO_MEM only if no page is free. It does not panic.
  pub sys_mem_map-Maps : Ends Mapped NotMapped (sys_mem_map srcid srcva dstid dstva perm k)
  unfolding sys_mem_map map_found
  sys_mem_map-Maps =
      elim (page_lookup-LooksUp k.mem role from.ok (k.envs src).pgdir srcva from.is_root
        (legal_low srcva legal)) [
          | inl (m, e) ↦ rw (legal, fits, at, into, e) (inl (refl, m))
          | inr (pte, m, _, e) ↦
              maps_found pte m (ppn_of ((k.mem).frame (k.envs src).pgdir (pdx srcva)), ptx srcva) e
        ]
