-- ===== src/Fork/Cow.antt =====
-- The fault of a write to a copy-on-write page (`cow_entry` of user/lib/fork.c).
use buaa_os.Prelude.{
  ℕ, ◌/◌, ◌%◌, ◌^◌, ◌<◌, ◌≡◌, ◌≢◌, refl, sym, ap, ◌∙◌, bit_or, true, false, Option, none, some,
  arith, update,
}
use buaa_os.Prelude.Outcome.{Returns, Returns-bind, Returns-mono, and_then}
use buaa_os.Memory.{pte_d, pte_v, valid, ppn_of, entry}
use buaa_os.Memory.Entry.{entry-valid, entry-perm, ppn_of-entry}
use buaa_os.Memory.Entry.{SamePage}
use buaa_os.Kernel.Syscall.{is_illegal_va}
use buaa_os.Fork.Pages.{is_private, Guarded, Forked}
use buaa_os.Fork.Duppage.{Stepped, duppage-Stepped}
use buaa_os.Fork.{
  duppage, page_va, stack_page, Side, parent, child, Spaces, Answers, is_cow, is_writable, on_side,
  mapped, mem_map, ucow_page, alloc_at, copy_page, cow_entry,
}

-- After a write fault of `side` at the page `i`: it has the contents of its old page in the fresh page `p`, which it
-- may write. Every other page, among them the old one, and all entries of the other side and of other pages are as they
-- were, but that the scratch page UCOW is not mapped.
pub record Owned (side : Side) (i p : ℕ) (s t : Spaces) : Type 0 where
  pub names : ppn_of (t.ptes side i) ≡ p
  pub present : valid (t.ptes side i) ≡ true
  pub may_write : is_writable (t.ptes side i) ≡ true
  pub no_cow : is_cow (t.ptes side i) ≡ false
  pub contents : t.pages p ≡ s.pages (ppn_of (s.ptes side i))
  pub other_pages : (q : ℕ) → q ≢ p → t.pages q ≡ s.pages q
  pub scratch : t.ptes side ucow_page ≡ 0
  pub other_entries :
      (z : Side) (j : ℕ) → (z ≡ side → (j ≢ i) × (j ≢ ucow_page)) → t.ptes z j ≡ s.ptes z j

side_ne : parent ≢ child
side_ne e = cc

at_side : (f : Side → ℕ → ℕ) (side : Side) (g : ℕ → ℕ) → on_side f side g side ≡ g
at_side f parent g = refl
at_side f child g = refl

kept :
    (f : ℕ → ℕ) (u e i e' j : ℕ)
    → (j ≢ i) × (j ≢ u)
    → update (update (update f u e) i e') u 0 j ≡ f j
kept f u e i e' j (n, n') = ground arith

-- An entry for `u`, one for `i`, and none for `u`.
abbrev thrice : (Side → ℕ → ℕ) → Side → ℕ → ℕ → ℕ → ℕ → Side → ℕ → ℕ
thrice f side u e i e' =
    let g = on_side f side (update (f side) u e) in
    let h = on_side g side (update (g side) i e') in on_side h side (update (h side) u 0)

thrice-side :
    (f : Side → ℕ → ℕ) (side : Side) (u e i e' : ℕ)
    → thrice f side u e i e' side ≡ update (update (update (f side) u e) i e') u 0
thrice-side f parent u e i e' = refl
thrice-side f child u e i e' = refl

thrice-others :
    (f : Side → ℕ → ℕ) (side z : Side) (u e i e' j : ℕ)
    → (z ≡ side → (j ≢ i) × (j ≢ u))
    → thrice f side u e i e' z j ≡ f z j
thrice-others f parent child u e i e' j h = refl
thrice-others f child parent u e i e' j h = refl
thrice-others f parent parent u e i e' j h = kept (f parent) u e i e' j (h refl)
thrice-others f child child u e i e' j h = kept (f child) u e i e' j (h refl)

-- The start of a page that the kernel maps is such an address too.
page_legal : (va : ℕ) → is_illegal_va va ≡ false → is_illegal_va (page_va (va / 2 ^ 12)) ≡ false
unfolding is_illegal_va
page_legal va h = ground arith

ucow_legal : is_illegal_va (page_va ucow_page) ≡ false
unfolding is_illegal_va
ucow_legal = refl

module _ (answers : Answers) where
  -- `cow_entry` at an address that the kernel maps, of a page that is copy-on-write and is not UCOW, where the kernel
  -- grants the mapping and gives a page `p`, below 2^20, that is not the page itself: it gets past its panic and the faulting side then has the
  -- contents of the old page in `p`, writable and no longer copy-on-write. The contents of all other pages, the old one
  -- among them, and all other entries of both sides are as they were, but that UCOW is unmapped on the faulting side.
  pub cow_entry-Owned :
      (new : Spaces → Option ℕ) (side : Side) (va p : ℕ) (s : Spaces)
      → ((t : Spaces) → answers t side (va / 2 ^ 12) ≡ none)
      → is_illegal_va va ≡ false
      → is_cow (s.ptes side (va / 2 ^ 12)) ≡ true
      → va / 2 ^ 12 ≢ ucow_page
      → new s ≡ some p
      → p < 2 ^ 20
      → ppn_of (s.ptes side (va / 2 ^ 12)) ≢ p
      → Returns (λ _ t. Owned side (va / 2 ^ 12) p s t) (cow_entry answers new side va s)
  unfolding cow_entry alloc_at copy_page mem_map mapped
  cow_entry-Owned new side va p s grants legal cow apart fresh small other =
      let i = va / 2 ^ 12 in
      let e = entry p (bit_or pte_d pte_v) in
      let legal' = page_legal va legal in
      let test : is_cow (s.ptes side i % 2 ^ 12) ≡ true = ground arith in
      let here : update (s.ptes side) ucow_page e ucow_page ≡ e = ground arith in
      let past : update (s.ptes side) ucow_page e i ≡ s.ptes side i = ground arith in
      let there : valid e ≡ true = entry-valid p (bit_or pte_d pte_v) in
      let name : ppn_of e ≡ p = ppn_of-entry p (bit_or pte_d pte_v) small (omega arith) in
      let f = s.ptes in
      let x = ppn_of (on_side f side (update (f side) ucow_page e) side ucow_page) in
      let named : x ≡ p =
        ap (λ (g : ℕ → ℕ). ppn_of (g ucow_page)) (at_side f side (update (f side) ucow_page e))
        ∙ name in
      let e' = entry x pte_d in
      let mine : thrice f side ucow_page e i e' side i ≡ e' =
        ap (λ (g : ℕ → ℕ). g i) (thrice-side f side ucow_page e i e') ∙ ground arith in
      let bits = entry-perm x pte_d in
      rw
        (
          test,
          fresh,
          ucow_legal,
          legal',
          at_side s.ptes side (update (s.ptes side) ucow_page e),
          here,
          past,
          there,
          grants,
          name,
        )
        (record {
          names = ap ppn_of mine ∙ (ppn_of-entry x pte_d (omega arith) (omega arith) ∙ named);
          present = ap valid mine ∙ entry-valid x pte_d;
          may_write = ap is_writable mine ∙ bits.0;
          no_cow = ap is_cow mine ∙ bits.3;
          contents = ground arith;
          other_pages = λ q ne. ground arith;
          scratch =
              ap (λ (g : ℕ → ℕ). g ucow_page) (thrice-side f side ucow_page e i e') ∙ ground arith;
          other_entries = λ z j h. thrice-others f side z ucow_page e i e' j h;
        })

-- After `duppage` both entries of a private page are copy-on-write and name its page.
private_page :
    (side : Side) (i : ℕ) (s t : Spaces)
    → valid (s.ptes parent i) ≡ true
    → is_private (s.ptes parent i) ≡ true
    → Forked (s.ptes parent i) (s.ptes child i) (t.ptes parent i) (t.ptes child i)
    → (is_cow (t.ptes side i) ≡ true) × (ppn_of (t.ptes side i) ≡ ppn_of (s.ptes parent i))
private_page side i s t there private h = on_a side (rw there at h)
  where
    on_a :
        (side : Side)
        → SamePage (s.ptes parent i) (t.ptes parent i)
          × SamePage (s.ptes parent i) (t.ptes child i)
          × Guarded (s.ptes parent i) (t.ptes parent i) (t.ptes child i)
        → (is_cow (t.ptes side i) ≡ true) × (ppn_of (t.ptes side i) ≡ ppn_of (s.ptes parent i))
    on_a parent h = ((rw private at h.2).0, h.0.1)
    on_a child h = ((rw private at h.2).2, h.1.1)

abbrev other_of : Side → Side
other_of parent = child
other_of child = parent

-- The page `i`, which the parent had in `s`, is in `t` there on both sides with the parent's contents; `side` may write
-- its own, which is not the page of the other.
abbrev pub Apart : Side → ℕ → Spaces → Spaces → Type 0
Apart side i s t =
    let old = s.pages (ppn_of (s.ptes parent i)) in
    (t.pages (ppn_of (t.ptes side i)) ≡ old)
    × (t.pages (ppn_of (t.ptes (other_of side) i)) ≡ old)
    × (is_writable (t.ptes side i) ≡ true)
    × (ppn_of (t.ptes side i) ≢ ppn_of (t.ptes (other_of side) i))

Owned-Apart :
    (side : Side) (i p : ℕ) (s t u : Spaces)
    → p ≢ ppn_of (s.ptes parent i)
    → t.pages ≡ s.pages
    → ((z : Side) → ppn_of (t.ptes z i) ≡ ppn_of (s.ptes parent i))
    → Owned side i p t u
    → Apart side i s u
Owned-Apart side i p s t u fresh pages named h =
    let z = other_of side in
    let stays : ppn_of (u.ptes z i) ≡ ppn_of (s.ptes parent i) =
      ap ppn_of (h.other_entries z i (differ side)) ∙ named z in
    (
      ap u.pages h.names
          ∙ (h.contents
              ∙ (ap t.pages (named side)
                  ∙ ap (λ (f : ℕ → ℕ → ℕ). f (ppn_of (s.ptes parent i))) pages)),
      ap u.pages stays
          ∙ (h.other_pages (ppn_of (s.ptes parent i)) (λ e. fresh (sym e))
              ∙ ap (λ (f : ℕ → ℕ → ℕ). f (ppn_of (s.ptes parent i))) pages),
      h.may_write,
      λ e. fresh (sym h.names ∙ (e ∙ stays)),
    )
  where
    differ : (side : Side) → other_of side ≡ side → (i ≢ i) × (i ≢ ucow_page)
    differ parent e = absurd (side_ne (sym e))
    differ child e = absurd (side_ne e)

module _ (answers : Answers) where
  -- `duppage`, and then a write fault of either side at an address of that page, which the kernel maps and which is
  -- below the page of the stack and not on UCOW, where the parent could write the page and did not share it, its entry
  -- is a word, the kernel grants the mappings of the page and gives a page `p` below 2^20 other than the parent's: both
  -- get to their end, and then each side has the page as the parent had it before, in two different pages, and the side
  -- at fault may write its own.
  pub duppage-cow_entry :
      (side : Side) (va p : ℕ) (s : Spaces)
      → ((t : Spaces) (z : Side) → answers t z (va / 2 ^ 12) ≡ none)
      → is_illegal_va va ≡ false
      → va / 2 ^ 12 < stack_page
      → va / 2 ^ 12 ≢ ucow_page
      → s.ptes parent (va / 2 ^ 12) < 2 ^ 32
      → valid (s.ptes parent (va / 2 ^ 12)) ≡ true
      → is_private (s.ptes parent (va / 2 ^ 12)) ≡ true
      → p < 2 ^ 20
      → p ≢ ppn_of (s.ptes parent (va / 2 ^ 12))
      → Returns
          (λ _ t. Apart side (va / 2 ^ 12) s t)
          (and_then
            (duppage answers (va / 2 ^ 12) s)
            (λ _. cow_entry answers (λ _. some p) side va))
  duppage-cow_entry side va p s grants legal low apart word there private small fresh =
      let i = va / 2 ^ 12 in
      Returns-bind (λ _ t. Stepped i s t) (λ _ t. Apart side i s t) (duppage answers i s)
        (λ _. cow_entry answers (λ _. some p) side va)
        (duppage-Stepped answers i s (page_legal va legal) grants word there)
        (λ _ t h. fault t h.same_pages h.here)
    where
      fault :
          (t : Spaces)
          → t.pages ≡ s.pages
          → Forked
              (s.ptes parent (va / 2 ^ 12))
              (s.ptes child (va / 2 ^ 12))
              (t.ptes parent (va / 2 ^ 12))
              (t.ptes child (va / 2 ^ 12))
          → Returns
              (λ _ t. Apart side (va / 2 ^ 12) s t)
              (cow_entry answers (λ _. some p) side va t)
      fault t pages forked =
          let i = va / 2 ^ 12 in
          let named = λ (z : Side). (private_page z i s t there private forked).1 in
          Returns-mono (λ _ u. Owned side i p t u) (λ _ u. Apart side i s u)
            (cow_entry answers (λ _. some p) side va t)
            (cow_entry-Owned answers (λ _. some p) side va p t (λ u. grants u side) legal
              ((private_page side i s t there private forked).0) apart refl small
              (λ e. fresh (sym e ∙ named side)))
            (λ _ u h. Owned-Apart side i p s t u fresh pages named h)
