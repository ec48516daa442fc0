-- ===== src/Fork/Pages.antt =====
-- What `fork` (user/lib/fork.c) makes of the entries of a page, for the parent and for the child.
use buaa_os.Prelude.{
  ℕ, ◌-◌, ◌/◌, ◌%◌, ◌^◌, ◌<◌, ◌≡◌, refl, ap, ◌∙◌, inl, inr, bit_and, bit_or, Bool, true, false, not,
  ◌&&◌, arith, if◌then◌else◌, Bool-cases,
}
use native.Mathlib.Nat.{le_refl}
use buaa_os.Prelude.Bits.{bit_or-div, bit-bit_or, bit-bit_and, bit_and-div, zero-bit_and}
use buaa_os.Memory.{pte_d, valid, ppn_of, entry}
use buaa_os.Memory.Entry.{SamePage, entry-SamePage, entry-perm}
use buaa_os.Fork.{is_cow, is_library, is_writable, pte_cow}

-- A page that the parent can write and does not share.
abbrev pub is_private : ℕ → Bool
is_private pte = is_writable pte && not (is_library pte)

-- The entry `p` of the parent is now `p'`, and the child has `c'`. A private page is copy-on-write for both and
-- writable for neither; any other stays as it is, and the child may do with it what the parent may.
abbrev pub Guarded : ℕ → ℕ → ℕ → Type 0
Guarded p p' c' =
    if is_private p
    then (is_cow p' ≡ true)
      × (is_writable p' ≡ false)
      × (is_cow c' ≡ true)
      × (is_writable c' ≡ false)
    else (p' ≡ p)
      × (is_writable c' ≡ is_writable p)
      × (is_library c' ≡ is_library p)
      × (is_cow c' ≡ is_cow p)

-- The same for a page of which `c` was the child's entry.
abbrev pub Forked : ℕ → ℕ → ℕ → ℕ → Type 0
Forked p c p' c' =
    if valid p then SamePage p p' × SamePage p c' × Guarded p p' c' else (p' ≡ p) × (c' ≡ c)

-- The permission of a page that becomes copy-on-write.
abbrev pub cow_perm : ℕ → ℕ
cow_perm pte = bit_or (bit_and (pte % 2 ^ 12) (2 ^ 32 - 1 - pte_d)) pte_cow

cow_perm_small : (pte : ℕ) → cow_perm pte < 2 ^ 12
cow_perm_small pte =
    let mask = 2 ^ 32 - 1 - pte_d in
    let none_left : pte % 2 ^ 12 / 2 ^ 12 ≡ 0 = omega arith in
    let masked : bit_and (pte % 2 ^ 12) mask / 2 ^ 12 ≡ 0 =
      bit_and-div 12 (pte % 2 ^ 12) mask
      ∙ (ap (λ v. bit_and v (mask / 2 ^ 12)) none_left
          ∙ zero-bit_and (mask / 2 ^ 12) (mask / 2 ^ 12) (le_refl (mask / 2 ^ 12))) in
    let high : cow_perm pte / 2 ^ 12 ≡ 0 =
      bit_or-div 12 (bit_and (pte % 2 ^ 12) mask) pte_cow
      ∙ ap (λ v. bit_or v (pte_cow / 2 ^ 12)) masked in
    omega arith

cow_entry_lem :
    (pp pte : ℕ)
    → (is_cow (entry pp (cow_perm pte)) ≡ true) × (is_writable (entry pp (cow_perm pte)) ≡ false)
cow_entry_lem pp pte =
    let bits = entry-perm pp (cow_perm pte) in
    let cow = bit-bit_or 0 (bit_and (pte % 2 ^ 12) (2 ^ 32 - 1 - pte_d)) pte_cow in
    let dirty = bit-bit_or 10 (bit_and (pte % 2 ^ 12) (2 ^ 32 - 1 - pte_d)) pte_cow in
    let masked = bit-bit_and 10 (pte % 2 ^ 12) (2 ^ 32 - 1 - pte_d) in
    (ground (arith, bits, cow), ground (arith, bits, dirty, masked))

-- What `duppage` does where the parent has the entry `p`, to the parent's entry and to the child's.
abbrev pub new_parent : ℕ → ℕ
new_parent p = if is_private p then entry (ppn_of p) (cow_perm p) else p

abbrev pub new_child : ℕ → ℕ
new_child p = if is_private p then entry (ppn_of p) (cow_perm p) else entry (ppn_of p) (p % 2 ^ 12)

pub new_Forked : (p c : ℕ) → p < 2 ^ 32 → valid p ≡ true → Forked p c (new_parent p) (new_child p)
new_Forked p c word there = elim (Bool-cases (is_private p)) [
  | inl private ↦
      rw (there, private)
        (let same = entry-SamePage p (cow_perm p) word (cow_perm_small p) in
          let bits = cow_entry_lem (ppn_of p) p in (same, same, (bits.0, bits.1, bits.0, bits.1)))
  | inr shared ↦
      rw (there, shared)
        (let bits = entry-perm (ppn_of p) (p % 2 ^ 12) in
          (
            (there, refl),
            entry-SamePage p (p % 2 ^ 12) word (omega arith),
            (refl, ground (arith, bits), ground (arith, bits), ground (arith, bits)),
          ))
]
