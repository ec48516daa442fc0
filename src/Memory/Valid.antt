-- ===== src/Memory/Valid.antt =====
-- When the memory is well formed: what each page is used for, as a function beside the state.
use buaa_os.Prelude.{ℕ, ◌≤◌, ◌<◌, ◌^◌, ◌≡◌, true, Option, none, some, if◌then◌else◌, has, Distinct}
use buaa_os.Memory.{Mem, pdx, ptx, ppn_of, valid}

-- `table r d` holds the page table of entry `d` of the directory `r`.
pub data Role : Type 0 where
  free held root user : Role
  table : ℕ → ℕ → Role

-- PDX(UTOP): the directory entries below it belong to the user's space.
abbrev pub user_top : ℕ
user_top = 509

pub record IsValid (s : Mem) (role : ℕ → Role) : Type 0 where
  pub small : s.npage ≤ 2 ^ 20
  pub free_distinct : Distinct s.page_free_list
  pub free_role : (p : ℕ) → has p s.page_free_list ≡ true → role p ≡ free
  pub free_bound : (p : ℕ) → has p s.page_free_list ≡ true → p < s.npage
  pub free_unused : (p : ℕ) → has p s.page_free_list ≡ true → s.pp_ref p ≡ 0
  pub table_role :
      (r d : ℕ)
      → role r ≡ root
      → d < user_top
      → valid (s.frame r d) ≡ true
      → role (ppn_of (s.frame r d)) ≡ table r d
  pub table_bound :
      (r d : ℕ)
      → role r ≡ root
      → d < user_top
      → valid (s.frame r d) ≡ true
      → ppn_of (s.frame r d) < s.npage
  pub page_role :
      (t r d i : ℕ)
      → role t ≡ table r d
      → i < 2 ^ 10
      → valid (s.frame t i) ≡ true
      → role (ppn_of (s.frame t i)) ≡ user
  pub page_bound :
      (t r d i : ℕ)
      → role t ≡ table r d
      → i < 2 ^ 10
      → valid (s.frame t i) ≡ true
      → ppn_of (s.frame t i) < s.npage
  pub page_used :
      (t r d i : ℕ)
      → role t ≡ table r d
      → i < 2 ^ 10
      → valid (s.frame t i) ≡ true
      → 0 < s.pp_ref (ppn_of (s.frame t i))

-- What the two levels of tables say of an address: the entry of its page, if it is valid.
unfoldable pub mapping : Mem → ℕ → ℕ → Option ℕ
mapping s r va =
    if valid (s.frame r (pdx va))
    then (if valid (s.frame (ppn_of (s.frame r (pdx va))) (ptx va))
        then some (s.frame (ppn_of (s.frame r (pdx va))) (ptx va))
        else none)
    else none
