-- ===== src/Memory/Walk.antt =====
-- `pgdir_walk` of kern/pmap.c: the table that is there, and the one that it adds.
use buaa_os.Prelude.{
  ℕ, ◌≤◌, ◌<◌, ◌^◌, ◌≡◌, ◌≢◌, Bool, true, false, none, some, List, [], ◌∷◌, arith, bit_or, update,
  ◌==◌, if◌then◌else◌, ◌+◌,
}
use buaa_os.Prelude.Outcome.{done, fail, e_no_mem}
use buaa_os.Memory.{Mem, pdx, ptx, ppn_of, page2pa, entry, pte_d, pte_v, u16, valid, pgdir_walk}
use buaa_os.Memory.Entry.{ppn_of-entry, ppn_of-pte_addr}

pub pgdir_walk_present :
    (s : Mem) (r va : ℕ) (create : Bool)
    → valid (s.frame r (pdx va)) ≡ true
    → ppn_of (s.frame r (pdx va)) < s.npage
    → pgdir_walk r va create s ≡ done (some (ppn_of (s.frame r (pdx va)), ptx va)) s
unfolding pgdir_walk
pgdir_walk_present s r va create v b = ground (arith, ppn_of-pte_addr (s.frame r (pdx va)))

pub pgdir_walk_absent :
    (s : Mem) (r va : ℕ)
    → valid (s.frame r (pdx va)) ≡ false
    → pgdir_walk r va false s ≡ done none s
unfolding pgdir_walk
pgdir_walk_absent s r va v = ground arith

pub pgdir_walk_full :
    (s : Mem) (r va : ℕ)
    → valid (s.frame r (pdx va)) ≡ false
    → s.page_free_list ≡ []
    → pgdir_walk r va true s ≡ fail e_no_mem s
unfolding pgdir_walk
pgdir_walk_full s r va v e = ground arith

-- The memory with the page `t` as a new, empty page table of `r` for `va`: the page is cleared,
-- then the directory entry is written twice.
pub cleared : Mem → ℕ → ℕ → ℕ → ℕ
cleared s t = update s.frame t (λ i. 0)

pub named : Mem → ℕ → ℕ → ℕ → ℕ → ℕ → ℕ
unfolding cleared
named s r va t = update (cleared s t) r (update (cleared s t r) (pdx va) (page2pa t))

pub add_table : Mem → ℕ → ℕ → ℕ → List ℕ → Mem
unfolding cleared named
add_table s r va t rest = record s {
  page_free_list = rest;
  frame = update (named s r va t) r (
      update (named s r va t r) (pdx va) (bit_or (bit_or (named s r va t r (pdx va)) pte_d) pte_v));
  pp_ref = update s.pp_ref t (u16 (s.pp_ref t + 1));
}

pub frame-add_table :
    (s : Mem) (r va t p i : ℕ) (rest : List ℕ)
    → t ≢ r
    → (add_table s r va t rest).frame p i ≡ (
        if p == r
        then (if i == pdx va then entry t pte_d else s.frame r i)
        else (if p == t then 0 else s.frame p i))
unfolding add_table entry
frame-add_table s r va t p i rest other = ground arith

pub pgdir_walk_create :
    (s : Mem) (r va t : ℕ) (rest : List ℕ)
    → valid (s.frame r (pdx va)) ≡ false
    → s.page_free_list ≡ t ∷ rest
    → t < s.npage
    → s.npage ≤ 2 ^ 20
    → s.pp_ref t ≡ 0
    → t ≢ r
    → pgdir_walk r va true s ≡ done (some (t, ptx va)) (add_table s r va t rest)
unfolding pgdir_walk add_table entry
pgdir_walk_create s r va t rest v e b small unused other = ground (
  arith,
  ppn_of-pte_addr (entry t pte_d),
  ppn_of-entry t pte_d,
  frame-add_table s r va t r (pdx va) rest,
)
