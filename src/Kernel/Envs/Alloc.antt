-- ===== src/Kernel/Envs/Alloc.antt =====
-- `asid_alloc` and `asid_free` of kern/env.c.
use buaa_os.Prelude.{
  ℕ, zero, suc, ◌+◌, ◌≤◌, ◌<◌, ◌≡◌, inl, inr, refl, Bool, true, false, not, ◌&&◌, ◌||◌, none, some,
  arith, ◌==◌, Bool-cases, Option-cases,
}
use buaa_os.Prelude.Outcome.{e_no_free_env, Ends, Returns}
use buaa_os.Bitmap.{Bitmap, test, test-mark, test-unmark}
use buaa_os.Kernel.{Kernel}
use buaa_os.Kernel.Envs.{nasid, find_asid, take_asid, asid_alloc, asid_free}

-- The ASID is in use.
abbrev pub in_use : Kernel → ℕ → Bool
in_use k i = test k.asid_bitmap i

find_asid-first :
    (fuel i j : ℕ) (b : Bitmap)
    → find_asid fuel i b ≡ some j
    → (i ≤ j) × (j < i + fuel) × (test b j ≡ false) × ((m : ℕ) → i ≤ m → m < j → test b m ≡ true)
unfolding find_asid
find_asid-first zero i j b e = absurd (cc)
find_asid-first (suc fuel) i j b e = elim (Bool-cases (test b i)) [
  | inl used ↦
      let (le, lt, off, before) = find_asid-first fuel (i + 1) j b (ground arith) in
      (omega arith, omega arith, off, λ m l g. first_or_later m l used (before m) g)
  | inr off ↦
      let here : i ≡ j = ground arith in
      (omega arith, omega arith, ground arith, λ m l g. absurd (omega arith))
]
  where
    first_or_later :
        (m : ℕ)
        → i ≤ m
        → test b i ≡ true
        → (i + 1 ≤ m → m < j → test b m ≡ true)
        → m < j
        → test b m ≡ true
    first_or_later m l used later g = ground arith

find_asid-none :
    (fuel i : ℕ) (b : Bitmap)
    → find_asid fuel i b ≡ none
    → (m : ℕ) → i ≤ m
    → m < i + fuel
    → test b m ≡ true
unfolding find_asid
find_asid-none zero i b e m l g = absurd (omega arith)
find_asid-none (suc fuel) i b e m l g =
    ground (arith, λ (p : find_asid fuel (i + 1) b ≡ none). find_asid-none fuel (i + 1) b p m)

-- `asid_alloc` takes the smallest ASID that is not in use and changes no other; it fails only when
-- all 64 are in use, and then changes nothing.
asid_alloc-first :
    (k : Kernel)
    → Ends
        (λ i k'.
          (i < nasid)
          × (in_use k i ≡ false)
          × ((j : ℕ) → j < i → in_use k j ≡ true)
          × ((j : ℕ) → in_use k' j ≡ ((j == i) || in_use k j)))
        (λ r k'. (r ≡ e_no_free_env) × ((j : ℕ) → j < nasid → in_use k j ≡ true) × (k' ≡ k))
        (asid_alloc k)
unfolding asid_alloc take_asid
asid_alloc-first k = elim (Option-cases (find_asid nasid 0 k.asid_bitmap)) [
  | inl e ↦ rw e (refl, λ j l. find_asid-none nasid 0 k.asid_bitmap e j (omega arith) l, refl)
  | inr (i, e) ↦
      let (le, lt, off, before) = find_asid-first nasid 0 i k.asid_bitmap e in
      rw e (lt, off, λ j l. before j (omega arith) l, λ j. test-mark k.asid_bitmap i j)
]

-- An ASID that `asid_free` gives back is not in use, and the others are as before.
pub asid_free-unused :
    (k : Kernel) (i : ℕ)
    → Returns (λ _ k'. (j : ℕ) → in_use k' j ≡ (not (j == i) && in_use k j)) (asid_free i k)
unfolding asid_free
asid_free-unused k i = λ j. test-unmark k.asid_bitmap i j
