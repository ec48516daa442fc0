-- ===== src/Client/Truncate.antt =====
-- The size of an open file and its pages in the window (`ftruncate` of user/lib/file.c).
use buaa_os.Prelude.{
  ℕ, zero, suc, ◌+◌, ◌-◌, ◌*◌, ◌<◌, ◌≤◌, ◌≡◌, ◌⊎◌, inl, inr, refl, sym, ◌∙◌, bit_or, Bool, true,
  false, ◌&&◌, Option, none, ◌∷◌, ltb, ◌==◌, update, arith, Bool-cases,
}
use buaa_os.Prelude.Outcome.{Outcome, Errno, done, fail, panic, Returns, Returns-bind, Returns-mono}
use buaa_os.Memory.{pte_d, pte_v}
use buaa_os.Client.{
  Client, Sent, fsreq_map, fsreq_set_size, by2pg, maxfilesize, pages_of, set_page, request,
  fsipc_map, map_from, unmap_from, sized_back, ftruncate,
}

-- The mapped pages of the window are those of the file.
abbrev pub Fits : Client → Type 0
Fits s = (q : ℕ) → s.mapped q ≡ ltb q (pages_of s.f_size)

-- Only the pages from `p` to `limit` are mapped or unmapped, to `v`; the bytes before them stay.
record Changed (v : Bool) (p limit : ℕ) (s t : Client) : Type 0 where
  pub size : t.f_size ≡ s.f_size
  pub inside : (q : ℕ) → p ≤ q → q < limit → t.mapped q ≡ v
  pub outside : (q : ℕ) → (q < p) ⊎ (limit ≤ q) → t.mapped q ≡ s.mapped q
  pub bytes : (a : ℕ) → a < p * by2pg → t.window a ≡ s.window a

on_page : (v : Bool) (p : ℕ) (s : Client) (b : ℕ → ℕ) → Changed v p (p + 1) s (set_page p v b s)
on_page v p s b = record {
  size = refl;
  inside = λ q l g. ground arith;
  outside = λ q out. beside q out;
  bytes = λ a low. ground arith;
}
  where
    beside : (q : ℕ) → (q < p) ⊎ (p + 1 ≤ q) → update s.mapped p v q ≡ s.mapped q
    beside q (inl l) = ground arith
    beside q (inr l) = ground arith

-- What has been sent does not matter.
of_sent :
    (v : Bool) (p limit : ℕ) (r : Sent) (s t : Client)
    → Changed v p limit (record s { sent = r ∷ s.sent }) t
    → Changed v p limit s t
of_sent v p limit r s t h = record {
  size = h.size;
  inside = h.inside;
  outside = h.outside;
  bytes = h.bytes;
}

nothing : (v : Bool) (p : ℕ) (s : Client) → Changed v p (p + 0) s s
nothing v p s = record {
  size = refl;
  inside = λ q l g. absurd (omega arith);
  outside = λ q out. refl;
  bytes = λ a low. refl;
}

and_on :
    (v : Bool) (p rounds : ℕ) (s t u : Client)
    → Changed v p (p + 1) s t
    → Changed v (p + 1) (p + 1 + rounds) t u
    → Changed v p (p + suc rounds) s u
and_on v p rounds s t u h k = record {
  size = k.size ∙ h.size;
  inside = λ q l g. elim (Bool-cases (q == p)) [
    | inl same ↦ k.outside q (inl (ground arith)) ∙ h.inside q l (ground arith)
    | inr apart ↦ k.inside q (ground arith) (omega arith)
  ];
  outside = λ q out. k.outside q (further q out) ∙ h.outside q (nearer q out);
  bytes = λ a low. k.bytes a (omega arith) ∙ h.bytes a low;
}
  where
    further : (q : ℕ) → (q < p) ⊎ (p + suc rounds ≤ q) → (q < p + 1) ⊎ (p + 1 + rounds ≤ q)
    further q (inl l) = inl (omega arith)
    further q (inr l) = inr (omega arith)

    nearer : (q : ℕ) → (q < p) ⊎ (p + suc rounds ≤ q) → (q < p) ⊎ (p + 1 ≤ q)
    nearer q (inl l) = inl l
    nearer q (inr l) = inr (omega arith)

-- The file has the size `n` and its pages, and the bytes of the pages that it had and has are as they were.
pub record Sized (n : ℕ) (s t : Client) : Type 0 where
  pub size : t.f_size ≡ n
  pub fits : Fits t
  pub kept :
      (a : ℕ) → a < pages_of s.f_size * by2pg → a < pages_of n * by2pg → t.window a ≡ s.window a

module _ (answer : Client → Sent → Option Errno) (perm : Client → ℕ → ℕ)
    (block : Client → ℕ → ℕ → ℕ) (grants : (s : Client) (r : Sent) → answer s r ≡ none)
    (flags : (s : Client) (p : ℕ) → perm s p ≡ bit_or pte_v (bit_or pte_d 4)) where
  requested :
      (r : Sent) (s : Client)
      → request answer perm block r s ≡ done tt (record s { sent = r ∷ s.sent })
  unfolding request
  requested r s = simp (grants s r) refl

  maps-Changed :
      (p : ℕ) (s : Client)
      → Returns (λ _ t. Changed true p (p + 1) s t) (fsipc_map answer perm block p s)
  unfolding fsipc_map
  maps-Changed p s =
      let s1 = record s { sent = fsreq_map (p * by2pg) ∷ s.sent } in
      simp (requested (fsreq_map (p * by2pg)) s, flags)
        (of_sent true p (p + 1) (fsreq_map (p * by2pg)) s _ (on_page true p s1 (block s1 p)))

  map_from-Changed :
      (rounds p : ℕ) (s : Client)
      → Returns (λ _ t. Changed true p (p + rounds) s t) (map_from answer perm block rounds p s)
  unfolding map_from
  map_from-Changed zero p s = nothing true p s
  map_from-Changed (suc rounds) p s =
      let go = map_from-Changed rounds (p + 1) in
      Returns-bind (λ _ t. Changed true p (p + 1) s t) (λ _ u. Changed true p (p + suc rounds) s u)
        (fsipc_map answer perm block p s) (λ _. map_from answer perm block rounds (p + 1))
        (maps-Changed p s)
        (λ _ t h.
          Returns-mono (λ _ u. Changed true (p + 1) (p + 1 + rounds) t u)
            (λ _ u. Changed true p (p + suc rounds) s u)
            (map_from answer perm block rounds (p + 1) t) (go t)
            (λ _ u k. and_on true p rounds s t u h k))

  unmap_from-Changed :
      (rounds p : ℕ) (s : Client)
      → Returns (λ _ t. Changed false p (p + rounds) s t) (unmap_from answer perm block rounds p s)
  unfolding unmap_from
  unmap_from-Changed zero p s = nothing false p s
  unmap_from-Changed (suc rounds) p s =
      let t = set_page p false (λ a. 0) s in
      Returns-mono (λ _ u. Changed false (p + 1) (p + 1 + rounds) t u)
        (λ _ u. Changed false p (p + suc rounds) s u)
        (unmap_from answer perm block rounds (p + 1) t) (unmap_from-Changed rounds (p + 1) t)
        (λ _ u k. and_on false p rounds s t u (on_page false p s (λ a. 0)) k)

  no_error :
      (oldsize : ℕ) (P : Unit {0} → Client → Type 0) (r : Outcome Client (Unit {0}))
      → Returns P r
      → Returns P (sized_back answer perm block oldsize r)
  unfolding sized_back
  no_error oldsize P (done tt s) h = h
  no_error oldsize P (fail e s) h = absurd h
  no_error oldsize P panic h = h

  resized :
      (n : ℕ) (s t u : Client)
      → Fits s
      → Changed true
          (pages_of s.f_size)
          (pages_of s.f_size + (pages_of n - pages_of s.f_size))
          (record s { f_size = n })
          t
      → Changed false (pages_of n) (pages_of n + (pages_of s.f_size - pages_of n)) t u
      → Sized n s u
  resized n s t u fits h k = record {
    size = k.size ∙ h.size;
    fits = λ q. rw (k.size ∙ h.size) (pages q);
    kept = λ a low low'. k.bytes a (omega arith) ∙ h.bytes a (omega arith);
  }
    where
      pages : (q : ℕ) → u.mapped q ≡ ltb q (pages_of n)
      pages q = elim (Bool-cases (ltb q (pages_of n))) [
        | inl new ↦ elim (Bool-cases (ltb q (pages_of s.f_size))) [
          | inl old ↦
              k.outside q (inl (ground arith))
              ∙ (h.outside q (inl (ground arith)) ∙ (fits q ∙ (old ∙ sym new)))
          | inr added ↦
              k.outside q (inl (ground arith))
              ∙ (h.inside q (ground arith) (ground arith) ∙ sym new)
        ]
        | inr gone ↦ elim (Bool-cases (ltb q (pages_of s.f_size))) [
          | inl old ↦ k.inside q (ground arith) (ground arith) ∙ sym gone
          | inr never ↦
              k.outside q (inr (ground arith))
              ∙ (h.outside q (inr (ground arith)) ∙ (fits q ∙ (never ∙ sym gone)))
        ]
      ]

  -- The same file and server: `ftruncate` to a size up to the largest one returns; the file has that size and its pages,
  -- and the bytes of the pages that it had and still has are as they were.
  pub ftruncate-Sized :
      (n : ℕ) (s : Client)
      → n ≤ maxfilesize
      → s.is_open ≡ true
      → s.is_file ≡ true
      → Fits s
      → Returns (λ _ t. Sized n s t) (ftruncate answer perm block n s)
  unfolding ftruncate
  ftruncate-Sized n s small there file fits =
      let low : ltb maxfilesize n ≡ false = ground arith in
      let s1 = record s { f_size = n; sent = fsreq_set_size n ∷ s.sent } in
      let old = pages_of s.f_size in
      let new = pages_of n in
      let both : (s.is_open && s.is_file) ≡ true = ground (arith, there, file) in
      simp (low, both, requested (fsreq_set_size n))
        (Returns-bind (λ _ t. Changed true old (old + (new - old)) s1 t) (λ _ u. Sized n s u)
          (sized_back answer perm block s.f_size (map_from answer perm block (new - old) old s1))
          (λ _. unmap_from answer perm block (old - new) new)
          (no_error s.f_size (λ _ t. Changed true old (old + (new - old)) s1 t)
            (map_from answer perm block (new - old) old s1) (map_from-Changed (new - old) old s1))
          (λ _ t h.
            Returns-mono (λ _ u. Changed false new (new + (old - new)) t u) (λ _ u. Sized n s u)
              (unmap_from answer perm block (old - new) new t)
              (unmap_from-Changed (old - new) new t)
              (λ _ u k.
                resized n s t u fits
                  (of_sent true old (old + (new - old)) (fsreq_set_size n) (record s { f_size = n })
                    t h)
                  k)))
