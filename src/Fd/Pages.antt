-- ===== src/Fd/Pages.antt =====
-- The pages that `dup` of user/lib/fd.c maps, and that it takes away after an error.
use buaa_os.Prelude.{
  ℕ, zero, suc, ◌+◌, ◌*◌, ◌/◌, ◌^◌, ◌<◌, ◌≤◌, ◌≡◌, ◌⊎◌, refl, sym, ◌∙◌, subst, inl, inr, true,
  false, arith, bit_and, bit_or, ◌==◌, ==_eq, if◌then◌else◌, Bool-cases, Option-cases,
}
use buaa_os.Prelude.Bits.{bit_and-div, bit_and-zero}
use native.Mathlib.Nat.{le_refl}
use buaa_os.Prelude.Outcome.{Ends, Ends-bind, Ends-both, Cmd, skip}
use buaa_os.Memory.{u32, valid, ppn_of, entry, pte_d}
use buaa_os.Memory.Entry.{SamePage, entry-SamePage}
use buaa_os.Kernel.Syscall.{is_illegal_va, utemp}
use buaa_os.Kernel.Envs.{utop}
use buaa_os.Fd.{
  Space, Answers, pte_library, vpn, pte_at, mem_unmap, mapped_by, mem_map, dup_pages, unmap_pages,
}

-- The permission that `dup` passes on fits the low twelve bits.
perm_small : (pte : ℕ) → bit_and pte (bit_or pte_d pte_library) < 2 ^ 12
perm_small pte = omega (
  arith,
  bit_and-div 12 pte 1028,
  bit_and-zero (pte / 2 ^ 12) (pte / 2 ^ 12) (le_refl (pte / 2 ^ 12)),
)

pub shared_entry :
    (pte : ℕ)
    → pte < 2 ^ 32
    → SamePage pte (entry (ppn_of pte) (bit_and pte (bit_or pte_d pte_library)))
shared_entry pte word =
    entry-SamePage pte (bit_and pte (bit_or pte_d pte_library)) word (perm_small pte)

-- Only the entries of `n` pages from `b` on differ.
pub record Apart (b n : ℕ) (s t : Space) : Type 0 where
  pub same_fds : t.fds ≡ s.fds
  pub same_bytes : t.bytes ≡ s.bytes
  pub others : (p : ℕ) → (p < b) ⊎ (b + n ≤ p) → t.ptes p ≡ s.ptes p

pub Apart-none : (b n : ℕ) (s : Space) → Apart b n s s
Apart-none b n s = record { same_fds = refl; same_bytes = refl; others = λ p h. refl }

-- One page, and then the others.
Apart-step : (b n : ℕ) (s t u : Space) → Apart b 1 s t → Apart (b + 1) n t u → Apart b (suc n) s u
Apart-step b n s t u h k = record {
  same_fds = k.same_fds ∙ h.same_fds;
  same_bytes = k.same_bytes ∙ h.same_bytes;
  others = λ p out. k.others p (later p out) ∙ h.others p (now p out);
}
  where
    later : (p : ℕ) → (p < b) ⊎ (b + suc n ≤ p) → (p < b + 1) ⊎ (b + 1 + n ≤ p)
    later p (inl l) = inl (omega arith)
    later p (inr l) = inr (omega arith)

    now : (p : ℕ) → (p < b) ⊎ (b + suc n ≤ p) → (p < b) ⊎ (b + 1 ≤ p)
    now p (inl l) = inl l
    now p (inr l) = inr (omega arith)

pub vpn-page : (a : ℕ) → vpn (a * 2 ^ 12) ≡ a
vpn-page a = omega arith

next_page : (a : ℕ) → a + 1 < 2 ^ 20 → u32 (a * 2 ^ 12 + 2 ^ 12) ≡ (a + 1) * 2 ^ 12
next_page a l = omega arith

-- The same by the numbers of the pages.
abbrev Paged : ℕ → ℕ → Space → Space → Type 0
Paged a b s t = Apart b 1 s t × (valid (s.ptes a) ≡ true → SamePage (s.ptes a) (t.ptes b))

-- `n` pages from `b` on have the pages that are mapped from `a` on.
abbrev pub Copies : ℕ → ℕ → ℕ → Space → Space → Type 0
Copies n a b s t =
    (p q : ℕ)
    → a ≤ p
    → p < a + n
    → q + a ≡ p + b
    → valid (s.ptes p) ≡ true
    → SamePage (s.ptes p) (t.ptes q)

abbrev pub Disjoint : ℕ → ℕ → ℕ → Type 0
Disjoint n a b = (a + n ≤ b) ⊎ (b + n ≤ a)

Copies-step :
    (n a b : ℕ) (s t u : Space)
    → Disjoint (suc n) a b
    → Paged a b s t
    → Apart (b + 1) n t u
    → Copies n (a + 1) (b + 1) t u
    → Copies (suc n) a b s u
Copies-step n a b s t u apart (h, first) k rest p q low high place there =
    elim (Bool-cases (p == a)) [
      | inl e ↦
          let at : p ≡ a = ==_eq p a e in
          let at' : q ≡ b = omega arith in
          rw (at, at', k.others b (inl (omega arith)))
            (first (subst (λ v. valid (s.ptes v) ≡ true) at there))
      | inr e ↦
          let same : t.ptes p ≡ s.ptes p = h.others p (outside apart (ground arith)) in
          subst (λ x. SamePage x (u.ptes q)) same
            (rest p q (ground arith) (omega arith) (omega arith) (rw same there))
    ]
  where
    outside : Disjoint (suc n) a b → a < p → (p < b) ⊎ (b + 1 ≤ p)
    outside (inl l) more = inl (omega arith)
    outside (inr l) more = inr (omega arith)

Disjoint-next : (n a b : ℕ) → Disjoint (suc n) a b → Disjoint n (a + 1) (b + 1)
Disjoint-next n a b (inl l) = inl (omega arith)
Disjoint-next n a b (inr l) = inr (omega arith)

abbrev pub Words : ℕ → ℕ → Space → Type 0
Words n a s = (p : ℕ) → a ≤ p → p < a + n → s.ptes p < 2 ^ 32

Words-next :
    (n a b : ℕ) (s t : Space)
    → Disjoint (suc n) a b
    → Apart b 1 s t
    → Words (suc n) a s
    → Words n (a + 1) t
Words-next n a b s t apart h words p low high =
    rw (h.others p (outside apart)) (words p (omega arith) (omega arith))
  where
    outside : Disjoint (suc n) a b → (p < b) ⊎ (b + 1 ≤ p)
    outside (inl l) = inl (omega arith)
    outside (inr l) = inr (omega arith)

module _ (answers : Answers) where
  pub mem_map-Apart :
      (src dst perm : ℕ) (s : Space)
      → Ends
          (λ _ t. Apart (vpn dst) 1 s t × (pte_at t dst ≡ entry (ppn_of (pte_at s src)) perm))
          (λ e t. t ≡ s)
          (mem_map answers src dst perm s)
  unfolding mem_map mapped_by
  mem_map-Apart src dst perm s = elim (Bool-cases (valid (pte_at s src))) [
    | inr away ↦ rw away refl
    | inl there ↦ elim (Option-cases (answers s src dst)) [
      | inr (e, bad) ↦ rw (there, bad) refl
      | inl ok ↦
          rw (there, ok)
            (
              record { same_fds = refl; same_bytes = refl; others = λ p h. ground arith },
              ground arith,
            )
    ]
  ]

  one_page :
      (src dst : ℕ) (s : Space)
      → pte_at s src < 2 ^ 32
      → Ends
          (λ _ t.
            Apart (vpn dst) 1 s t
            × (valid (pte_at s src) ≡ true → SamePage (pte_at s src) (pte_at t dst)))
          (λ e t. t ≡ s)
          ((if valid (pte_at s src)
              then mem_map answers src dst (bit_and (pte_at s src) (bit_or pte_d pte_library))
              else skip)
            s)
  one_page src dst s word = elim (Bool-cases (valid (pte_at s src))) [
    | inr away ↦ rw away (Apart-none (vpn dst) 1 s, λ there. absurd (ground arith))
    | inl there ↦ rw there (
        Ends-both _ _ (λ e t. t ≡ s) (λ e t. t ≡ s)
          (mem_map answers src dst (bit_and (pte_at s src) (bit_or pte_d pte_library)) s)
          (mem_map-Apart src dst (bit_and (pte_at s src) (bit_or pte_d pte_library)) s)
          (λ u t h. (h.0, λ _. rw h.1 (shared_entry (pte_at s src) word))) (λ e t h. h))
  ]

  abbrev map_page : ℕ → ℕ → Cmd Space (Unit {0})
  map_page src dst s =
      (if valid (pte_at s src)
          then mem_map answers src dst (bit_and (pte_at s src) (bit_or pte_d pte_library))
          else skip)
        s

  map_page-Paged :
      (a b : ℕ) (s : Space)
      → s.ptes a < 2 ^ 32
      → Ends (λ _ t. Paged a b s t) (λ e t. t ≡ s) (map_page (a * 2 ^ 12) (b * 2 ^ 12) s)
  map_page-Paged a b s word =
      Ends-both (λ _ t. Paged (vpn (a * 2 ^ 12)) (vpn (b * 2 ^ 12)) s t) _ (λ e t. t ≡ s)
        (λ e t. t ≡ s) (map_page (a * 2 ^ 12) (b * 2 ^ 12) s)
        (one_page (a * 2 ^ 12) (b * 2 ^ 12) s
          (subst (λ v. s.ptes v < 2 ^ 32) (sym (vpn-page a)) word))
        (λ u t h.
          subst (λ v. Paged v b s t) (vpn-page a)
            (subst (λ v. Paged (vpn (a * 2 ^ 12)) v s t) (vpn-page b) h))
        (λ e t h. h)

  pub dup_pages-Copies :
      (n a b : ℕ) (s : Space)
      → a + n < 2 ^ 20
      → b + n < 2 ^ 20
      → Disjoint n a b
      → Words n a s
      → Ends
          (λ _ t. Apart b n s t × Copies n a b s t)
          (λ e t. Apart b n s t)
          (dup_pages answers n (a * 2 ^ 12) (b * 2 ^ 12) s)
  unfolding dup_pages
  dup_pages-Copies zero a b s la lb apart words =
      (Apart-none b 0 s, λ p q low high. absurd (omega arith))
  dup_pages-Copies (suc n) a b s la lb apart words =
      rw (next_page a (omega arith), next_page b (omega arith))
        (Ends-bind (λ _ t. Paged a b s t) (λ _ t. Apart b (suc n) s t × Copies (suc n) a b s t)
          (λ e t. Apart b (suc n) s t) (map_page (a * 2 ^ 12) (b * 2 ^ 12) s) _
          (Ends-both _ _ (λ e t. t ≡ s) _ (map_page (a * 2 ^ 12) (b * 2 ^ 12) s)
            (map_page-Paged a b s (words a (omega arith) (omega arith))) (λ u t h. h)
            (λ e t h. rw h (Apart-none b (suc n) s)))
          (λ u t h.
            Ends-both _ _ _ _ (dup_pages answers n ((a + 1) * 2 ^ 12) ((b + 1) * 2 ^ 12) t)
              (dup_pages-Copies n (a + 1) (b + 1) t (omega arith) (omega arith)
                (Disjoint-next n a b apart) (Words-next n a b s t apart h.0 words))
              (λ x v k. (Apart-step b n s t v h.0 k.0, Copies-step n a b s t v apart h k.0 k.1))
              (λ e v k. Apart-step b n s t v h.0 k)))

-- After an error the pages are taken away.
abbrev pub Cleaned : ℕ → ℕ → Space → Type 0
Cleaned n b t = (p : ℕ) → b ≤ p → p < b + n → t.ptes p ≡ 0

pub unmap-Apart :
    (b : ℕ) (s : Space)
    → is_illegal_va (b * 2 ^ 12) ≡ false
    → Ends (λ _ t. Apart b 1 s t × (t.ptes b ≡ 0)) (λ e t. ⊥) (mem_unmap (b * 2 ^ 12) s)
unfolding mem_unmap
unmap-Apart b s legal =
    rw (legal, vpn-page b)
      (record { same_fds = refl; same_bytes = refl; others = λ p h. ground arith }, ground arith)

pub unmap_pages-Cleaned :
    (n b : ℕ) (s : Space)
    → utemp ≤ b * 2 ^ 12
    → (b + n) * 2 ^ 12 ≤ utop
    → Ends (λ _ t. Apart b n s t × Cleaned n b t) (λ e t. ⊥) (unmap_pages n (b * 2 ^ 12) s)
unfolding unmap_pages is_illegal_va
unmap_pages-Cleaned zero b s low high = (Apart-none b 0 s, λ p h k. absurd (omega arith))
unmap_pages-Cleaned (suc n) b s low high =
    let legal : is_illegal_va (b * 2 ^ 12) ≡ false = ground arith in
    rw (next_page b (omega arith)) (
      Ends-bind _ _ _ (mem_unmap (b * 2 ^ 12) s) _ (unmap-Apart b s legal) (λ u t h.
        Ends-both _ _ (λ e t. ⊥) (λ e t. ⊥) (unmap_pages n ((b + 1) * 2 ^ 12) t)
          (unmap_pages-Cleaned n (b + 1) t (omega arith) (omega arith))
          (λ x v k. (Apart-step b n s t v h.0 k.0, λ p l m. more t p v l m h.1 k.0 k.1))
          (λ e v z. z)))
  where
    more :
        (t : Space) (p : ℕ) (v : Space)
        → b ≤ p
        → p < b + suc n
        → t.ptes b ≡ 0
        → Apart (b + 1) n t v
        → Cleaned n (b + 1) v
        → v.ptes p ≡ 0
    more t p v l m gone k rest = elim (Bool-cases (p == b)) [
      | inl e ↦ rw (==_eq p b e) (k.others b (inl (omega arith)) ∙ gone)
      | inr e ↦ rest p (ground arith) (omega arith)
    ]
