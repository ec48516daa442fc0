-- ===== src/Client.antt =====
-- An open file of a client of the file server: user/lib/file.c, with the requests of user/lib/fsipc.c. `window` are the
-- bytes at `fd2data` of its descriptor, zeros where no page is mapped, since a page that is touched there is given by
-- the kernel as zeros. `open` says that the descriptor's page is mapped, `is_file` that its device is `devfile`. What
-- the server answers, and the block that it maps, are parameters.
pub mod Truncate
pub mod Transfer
mod Tests
use buaa_os.Prelude.{
  ℕ, zero, suc, ◌+◌, ◌-◌, ◌*◌, ◌/◌, ◌^◌, bit_and, bit_or, Bool, true, false, not, ◌&&◌, ◌||◌,
  Option, none, some, List, [], ◌∷◌, ltb, leb, ◌==◌, if◌then◌else◌, update,
}
use buaa_os.Prelude.Outcome.{
  Outcome, Cmd, Errno, e_inval, e_no_disk, done, fail, panic, pure, throw, halt, skip, ◌>>=◌, ◌>>◌,
  reads, modify, assert, ignore,
}
use buaa_os.Memory.{u32, pte_d, pte_v}

-- A request, without the path and the flags of FSREQ_OPEN.
pub data Sent : Type 0 where
  fsreq_map fsreq_set_size fsreq_dirty : ℕ → Sent
  fsreq_close : Sent

pub record Client : Type 0 where
  pub is_open : Bool
  pub is_file : Bool
  pub f_size : ℕ
  pub mapped : ℕ → Bool
  pub window : ℕ → ℕ
  pub sent : List Sent

-- BY2PG
abbrev pub by2pg : ℕ
by2pg = 4096

-- MAXFILESIZE
abbrev pub maxfilesize : ℕ
maxfilesize = 1024 * by2pg

-- ROUND(n, BY2PG) / BY2PG: the number of pages of `n` bytes.
abbrev pub pages_of : ℕ → ℕ
pages_of n = (n + (by2pg - 1)) / by2pg

-- Pages `p` and, in the window, its bytes.
abbrev pub set_page : ℕ → Bool → (ℕ → ℕ) → Client → Client
set_page p there b s = record s {
  mapped = update s.mapped p there;
  window = λ a. if a / by2pg == p then b a else s.window a;
}

abbrev pub replied : Option Errno → Cmd Client (Unit {0})
replied none = skip
replied (some e) = throw e

-- A reading of `n` bytes from `offset`: how many there are, and what they are.
abbrev pub read_count : ℕ → ℕ → ℕ → ℕ
read_count size n offset =
    if ltb size offset then 0 else if ltb size (u32 (offset + n)) then size - offset else n

-- A page of the window that is touched is mapped.
abbrev pub touched : ℕ → ℕ → Client → Client
touched offset n s = record s {
  mapped =
      λ p. s.mapped p || (not (n == 0) && leb (offset / by2pg) p && ltb (p * by2pg) (offset + n));
}

pub file_read : ℕ → ℕ → Cmd Client (ℕ × (ℕ → ℕ))
file_read n offset = do
  size ← reads λ s. s.f_size
  let count = read_count size n offset
  bytes ← reads λ s. s.window
  modify (touched offset count)
  pure (count, λ j. bytes (offset + j))

-- `memcpy` into the window.
pub copy_to : ℕ → ℕ → (ℕ → ℕ) → Cmd Client (Unit {0})
copy_to offset n buf = modify λ s. record (touched offset n s) {
  window = λ a. if leb offset a && ltb a (offset + n) then buf (a - offset) else s.window a;
}

module _ (answer : Client → Sent → Option Errno) (perm : Client → ℕ → ℕ)
    (block : Client → ℕ → ℕ → ℕ) where
  -- `fsipc`
  pub request : Sent → Cmd Client (Unit {0})
  request r s = replied (answer s r) (record s { sent = r ∷ s.sent })

  -- `fsipc_map` of the page `p`, which is then mapped in the window.
  pub fsipc_map : ℕ → Cmd Client (Unit {0})
  unfolding request
  fsipc_map p = do
    request (fsreq_map (p * by2pg))
    modify λ s. set_page p true (block s p) s
    flags ← reads λ s. perm s p
    assert (bit_and flags (2 ^ 32 - 1 - bit_or pte_d 4) == pte_v)

  -- The loops of `open` and `ftruncate` that map the pages from `p` on.
  pub map_from : ℕ → ℕ → Cmd Client (Unit {0})
  unfolding fsipc_map
  map_from zero p = skip
  map_from (suc rounds) p = let rest = map_from rounds (p + 1) in do fsipc_map p; rest

  -- `syscall_mem_unmap` of a page of the window does not fail.
  pub unmap_from : ℕ → ℕ → Cmd Client (Unit {0})
  unmap_from zero p = skip
  unmap_from (suc rounds) p =
      let rest = unmap_from rounds (p + 1) in do modify λ s. set_page p false (λ a. 0) s; rest

  -- After an error of `map_from` the server gets the old size back.
  pub sized_back : ℕ → Outcome Client (Unit {0}) → Outcome Client (Unit {0})
  unfolding request
  sized_back oldsize (done _ s) = done tt s
  sized_back oldsize (fail e s) = (ignore (request (fsreq_set_size oldsize)) >> throw e) s
  sized_back oldsize panic = panic

  -- `fdnum` is the descriptor's own number.
  pub ftruncate : ℕ → Cmd Client (Unit {0})
  unfolding sized_back map_from unmap_from
  ftruncate size = if ltb maxfilesize size then throw e_no_disk else do
    there ← reads λ s. s.is_open && s.is_file
    if not there then throw e_inval else do
      oldsize ← reads λ s. s.f_size
      modify λ s. record s { f_size = size }
      request (fsreq_set_size size)
      λ s. sized_back oldsize (map_from (pages_of size - pages_of oldsize) (pages_of oldsize) s)
      unmap_from (pages_of oldsize - pages_of size) (pages_of size)

  pub file_write : ℕ → ℕ → (ℕ → ℕ) → Cmd Client ℕ
  unfolding ftruncate copy_to
  file_write n offset buf =
      let tot = u32 (offset + n) in
      if ltb maxfilesize tot then throw e_no_disk else do
        size ← reads λ s. s.f_size
        if ltb size tot then ftruncate tot else skip
        copy_to offset n buf
        pure n

  pub dirty_from : ℕ → ℕ → Cmd Client (Unit {0})
  unfolding request
  dirty_from zero p = skip
  dirty_from (suc rounds) p =
      let rest = dirty_from rounds (p + 1) in do ignore (request (fsreq_dirty (p * by2pg))); rest

  pub file_close : Cmd Client (Unit {0})
  unfolding dirty_from unmap_from
  file_close = do
    size ← reads λ s. s.f_size
    dirty_from (pages_of size) 0
    request fsreq_close
    unmap_from (pages_of size) 0

  -- `read_map`: the page at `offset`, if it is mapped.
  pub read_map : ℕ → Cmd Client ℕ
  read_map offset = do
    there ← reads λ s. s.is_open && s.is_file
    if not there then throw e_inval else if leb maxfilesize offset then throw e_no_disk else do
      on ← reads λ s. s.mapped (offset / by2pg)
      if not on then throw e_no_disk else pure offset
