-- ===== src/Memory/Mapping.antt =====
-- What a write to a table entry, or a new table, changes in the address spaces (kern/pmap.c).
use buaa_os.Prelude.{
  ℕ, ◌<◌, ◌^◌, ◌/◌, ◌%◌, ◌≡◌, ◌≢◌, ◌⊎◌, true, false, none, some, List, arith, update, if◌then◌else◌,
}
use buaa_os.Memory.{Mem, pdx, ptx, ppn_of, valid, pte_d}
use buaa_os.Memory.Entry.{ppn_of-entry}
use buaa_os.Memory.Valid.{Role, free, root, table, user_top, mapping}
use buaa_os.Memory.Walk.{add_table, frame-add_table}

-- The number of the virtual page.
abbrev pub vpn : ℕ → ℕ
vpn va = va / 2 ^ 12 % 2 ^ 20

abbrev pub put : Mem → ℕ → ℕ → ℕ → Mem
put s t i v = record s { frame = update s.frame t (update (s.frame t) i v) }

pub mapping-put :
    (s : Mem) (r va v : ℕ)
    → valid (s.frame r (pdx va)) ≡ true
    → ppn_of (s.frame r (pdx va)) ≢ r
    → mapping (put s (ppn_of (s.frame r (pdx va))) (ptx va) v) r va
      ≡ (if valid v then some v else none)
unfolding mapping
mapping-put s r va v h other = ground arith

-- The tables of the user's spaces, as far as the lemmas below need them.
abbrev pub HasTables : Mem → (ℕ → Role) → Type 0
HasTables s role =
    (r d : ℕ)
    → role r ≡ root
    → d < user_top
    → valid (s.frame r d) ≡ true
    → role (ppn_of (s.frame r d)) ≡ table r d

pub mapping-put_other :
    (s : Mem) (role : ℕ → Role) (r va q wa v : ℕ)
    → HasTables s role
    → role r ≡ root
    → role q ≡ root
    → pdx va < user_top
    → pdx wa < user_top
    → valid (s.frame r (pdx va)) ≡ true
    → ((q ≢ r) ⊎ (vpn wa ≢ vpn va))
    → mapping (put s (ppn_of (s.frame r (pdx va))) (ptx va) v) q wa ≡ mapping s q wa
unfolding mapping
mapping-put_other s role r va q wa v tables hr hq lr lq h apart =
    ground (arith, tables r (pdx va), tables q (pdx wa))

pub mapping-add_table :
    (s : Mem) (role : ℕ → Role) (r va t q wa : ℕ) (rest : List ℕ)
    → HasTables s role
    → role r ≡ root
    → role q ≡ root
    → role t ≡ free
    → t < 2 ^ 20
    → pdx wa < user_top
    → valid (s.frame r (pdx va)) ≡ false
    → mapping (add_table s r va t rest) q wa ≡ mapping s q wa
unfolding mapping
mapping-add_table s role r va t q wa rest tables hr hq ht small lq h = ground (
  arith,
  tables q (pdx wa),
  frame-add_table s r va t q (pdx wa) rest,
  frame-add_table s r va t (ppn_of (s.frame q (pdx wa))) (ptx wa) rest,
  frame-add_table s r va t t (ptx wa) rest,
  ppn_of-entry t pte_d,
)
