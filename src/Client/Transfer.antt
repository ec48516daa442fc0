-- ===== src/Client/Transfer.antt =====
-- Writing to an open file and reading it back (`file_write` and `file_read` of user/lib/file.c).
use buaa_os.Prelude.{
  ℕ, ◌+◌, ◌-◌, ◌*◌, ◌/◌, ◌<◌, ◌≤◌, ◌≡◌, ◌⊎◌, inl, inr, refl, sym, ap, ◌∙◌, subst, bit_or, Bool,
  true, false, not, ◌&&◌, ◌||◌, Option, none, ltb, leb, ◌==◌, if◌then◌else◌, arith, Bool-cases,
}
use buaa_os.Prelude.Outcome.{
  Cmd, Errno, skip, pure, throw, reads, e_no_disk, ◌>>=◌, ◌>>◌, Returns, Returns-bind,
}
use buaa_os.Memory.{u32, pte_d, pte_v}
use buaa_os.Client.{
  Client, Sent, by2pg, maxfilesize, pages_of, touched, read_count, file_read, copy_to, ftruncate,
  file_write,
}
use buaa_os.Client.Truncate.{Fits, Sized, ftruncate-Sized}

-- The size after `n` bytes are written at `offset`.
abbrev pub grown : ℕ → ℕ → ℕ → ℕ
grown size n offset = if ltb size (offset + n) then offset + n else size

-- `n` bytes were written at `offset`: the file is as large as it has to be and has its pages, reading gives the bytes
-- back, and the other bytes of the pages that it had are as they were.
pub record Written (n offset : ℕ) (buf : ℕ → ℕ) (s : Client) (r : ℕ) (t : Client) : Type 0 where
  pub count : r ≡ n
  pub size : t.f_size ≡ grown s.f_size n offset
  pub fits : Fits t
  pub back :
      Returns (λ (m, bytes) _. (m ≡ n) × ((j : ℕ) → j < n → bytes j ≡ buf j)) (file_read n offset t)
  pub kept :
      (a : ℕ)
      → a < pages_of s.f_size * by2pg
      → (a < offset) ⊎ (offset + n ≤ a)
      → t.window a ≡ s.window a

copied :
    (n offset : ℕ) (buf : ℕ → ℕ) (s t : Client)
    → offset + n ≤ maxfilesize
    → Sized (grown s.f_size n offset) s t
    → Written n offset buf s n (record (touched offset n t) {
      window = λ a. if leb offset a && ltb a (offset + n) then buf (a - offset) else t.window a;
    })
unfolding file_read
copied n offset buf s t small h = record {
  count = refl;
  size = h.size;
  fits = λ q.
      ap (λ b. b || (not (n == 0) && leb (offset / by2pg) q && ltb (q * by2pg) (offset + n)))
        (h.fits q)
      ∙ within q;
  back = (counted, λ j l. back j l);
  kept = λ a low out. past a out ∙ h.kept a low (ground arith);
}
  where
    reach : offset + n ≤ t.f_size
    reach = rw h.size (ground arith)

    within :
        (q : ℕ)
        → (ltb q (pages_of t.f_size)
            || (not (n == 0) && leb (offset / by2pg) q && ltb (q * by2pg) (offset + n)))
          ≡ ltb q (pages_of t.f_size)
    within q = ground (arith, reach)

    counted : read_count t.f_size n offset ≡ n
    counted = ground (arith, reach)

    back :
        (j : ℕ)
        → j < n
        → (if leb offset (offset + j) && ltb (offset + j) (offset + n)
            then buf (offset + j - offset)
            else t.window (offset + j))
          ≡ buf j
    back j l =
        let inside : (leb offset (offset + j) && ltb (offset + j) (offset + n)) ≡ true =
          ground arith in
        rw inside (ap buf (omega arith))

    past :
        (a : ℕ)
        → (a < offset) ⊎ (offset + n ≤ a)
        → (if leb offset a && ltb a (offset + n) then buf (a - offset) else t.window a) ≡ t.window a
    past a (inl l) = ground arith
    past a (inr l) = ground arith

otherwise :
    {A : Type 0} (P : A → Client → Type 0) (x m : Cmd Client A) (s : Client) (b : Bool)
    → b ≡ false
    → Returns P (m s)
    → Returns P ((if b then x else m) s)
otherwise P x m s b off h = rw off h

module _ (answer : Client → Sent → Option Errno) (perm : Client → ℕ → ℕ)
    (block : Client → ℕ → ℕ → ℕ) (grants : (s : Client) (r : Sent) → answer s r ≡ none)
    (flags : (s : Client) (p : ℕ) → perm s p ≡ bit_or pte_v (bit_or pte_d 4)) where
  grows :
      (n offset : ℕ) (s : Client)
      → offset + n ≤ maxfilesize
      → s.is_open ≡ true
      → s.is_file ≡ true
      → Fits s
      → Returns
          (λ _ t. Sized (grown s.f_size n offset) s t)
          ((if ltb s.f_size (offset + n) then ftruncate answer perm block (offset + n) else skip) s)
  grows n offset s small there file fits = elim (Bool-cases (ltb s.f_size (offset + n))) [
    | inl more ↦
        rw more
          (ftruncate-Sized answer perm block grants flags (offset + n) s small there file fits)
    | inr enough ↦ rw enough (record { size = refl; fits = fits; kept = λ a l l'. refl })
  ]

  -- An open file of the server, whose mapped pages are those of its size, and a server that answers every request and
  -- maps its blocks with the permission of `serve_map`: `file_write` of `n` bytes at an offset, up to the largest size
  -- of a file, returns `n`. The file is as large as the larger of its old size and the end of the bytes, and has the
  -- pages of that size; `file_read` of as many at the offset gives the bytes back; every other byte of the pages that
  -- the file had is as it was.
  pub file_write-file_read :
      (n offset : ℕ) (buf : ℕ → ℕ) (s : Client)
      → offset + n ≤ maxfilesize
      → s.is_open ≡ true
      → s.is_file ≡ true
      → Fits s
      → Returns (Written n offset buf s) (file_write answer perm block n offset buf s)
  unfolding file_write copy_to
  file_write-file_read n offset buf s small there file fits =
      let whole : u32 (offset + n) ≡ offset + n = omega arith in
      let low : ltb maxfilesize (offset + n) ≡ false = ground arith in
      subst (λ tot. Returns (Written n offset buf s) (write_up_to tot s)) (sym whole)
        (otherwise (Written n offset buf s) (throw e_no_disk) (write_rest (offset + n)) s
          (ltb maxfilesize (offset + n)) low
          (Returns-bind (λ _ t. Sized (grown s.f_size n offset) s t) (Written n offset buf s)
            ((if ltb s.f_size (offset + n) then ftruncate answer perm block (offset + n) else skip)
              s)
            (λ _. copy_to offset n buf >> pure n) (grows n offset s small there file fits)
            (λ _ t h. copied n offset buf s t small h)))
    where
      write_rest : ℕ → Cmd Client ℕ
      write_rest tot = do
        size ← reads λ s. s.f_size
        if ltb size tot then ftruncate answer perm block tot else skip
        copy_to offset n buf
        pure n

      write_up_to : ℕ → Cmd Client ℕ
      write_up_to tot = if ltb maxfilesize tot then throw e_no_disk else write_rest tot
