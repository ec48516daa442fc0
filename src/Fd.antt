-- ===== src/Fd.antt =====
-- File descriptors: user/lib/fd.c and user/include/fd.h, in the address space of one environment. A pointer
-- to a descriptor is its address, and the descriptor itself lies on the page that `ptes` has there: two
-- addresses may have the same page. `tables` says where the page directory has a table, and `ptes` is 0
-- where it has none. The devices are a parameter, and so is what the kernel answers when it is asked to map
-- a page that is there.
pub mod Alloc
pub mod Dup
pub mod Pages
pub mod Tests
pub mod Transfer
use buaa_os.Prelude.{
  ℕ, zero, suc, ◌+◌, ◌-◌, ◌*◌, ◌/◌, ◌%◌, ◌^◌, ◌≤◌, bit_and, bit_or, Bool, true, false, not, ◌&&◌,
  ◌||◌, Option, none, some, List, [], ◌∷◌, ltb, leb, ◌==◌, if◌then◌else◌, update,
}
use buaa_os.Prelude.Outcome.{
  Outcome, Cmd, Errno, e_inval, e_max_open, done, fail, panic, pure, throw, halt, skip, ◌>>=◌, ◌>>◌,
  reads, modify, ignore,
}
use buaa_os.Memory.{u32, pte_d, valid, ppn_of, entry}
use buaa_os.Kernel.Syscall.{is_illegal_va}

pub record Fd : Type 0 where
  pub fd_dev_id : ℕ
  pub fd_offset : ℕ
  pub fd_omode : ℕ

pub record Space : Type 0 where
  pub tables : ℕ → Bool
  pub ptes : ℕ → ℕ
  pub fds : ℕ → Fd
  pub bytes : ℕ → ℕ

-- `dev_read` and `dev_write` have the descriptor, the buffer, the number of bytes and the offset.
pub record Dev : Type 0 where
  pub dev_id : ℕ
  pub dev_read : ℕ → ℕ → ℕ → ℕ → Cmd Space ℕ
  pub dev_write : ℕ → ℕ → ℕ → ℕ → Cmd Space ℕ
  pub dev_close : ℕ → Cmd Space ℕ

-- MAXFD, PDMAP, FILEBASE, FDTABLE, PTE_LIBRARY
abbrev pub maxfd : ℕ
maxfd = 32

abbrev pub filebase : ℕ
filebase = 0x60000000

abbrev pub fdtable : ℕ
fdtable = filebase - 2 ^ 22

abbrev pub pte_library : ℕ
pte_library = 4

abbrev pub index2fd : ℕ → ℕ
index2fd i = u32 (fdtable + i * 2 ^ 12)

abbrev pub index2data : ℕ → ℕ
index2data i = u32 (filebase + i * 2 ^ 22)

-- The page of an address, and `vpd` and `vpt` there.
abbrev pub vpn : ℕ → ℕ
vpn va = va / 2 ^ 12

abbrev pub table_at : Space → ℕ → Bool
table_at s va = s.tables (va / 2 ^ 22)

abbrev pub pte_at : Space → ℕ → ℕ
pte_at s va = s.ptes (vpn va)

abbrev pub fd_at : Space → ℕ → Fd
fd_at s va = s.fds (ppn_of (pte_at s va))

abbrev pub get_fd : ℕ → Cmd Space Fd
get_fd va = reads λ s. fd_at s va

abbrev pub set_offset : ℕ → ℕ → Cmd Space (Unit {0})
set_offset va off = modify λ s. record s {
  fds = update s.fds (ppn_of (pte_at s va)) (record (fd_at s va) { fd_offset = off });
}

abbrev pub fd2num : ℕ → ℕ
fd2num fd = u32 (fd + 2 ^ 32 - fdtable) / 2 ^ 12

abbrev pub fd2data : ℕ → ℕ
fd2data fd = index2data (fd2num fd)

-- From `fdno` on.
pub fd_alloc_from : ℕ → ℕ → Cmd Space ℕ
fd_alloc_from zero fdno = throw e_max_open
fd_alloc_from (suc rounds) fdno =
    let rest = fd_alloc_from rounds (fdno + 1) in
    let va = index2fd fdno in
    do
      table ← reads λ s. table_at s va
      pte ← reads λ s. pte_at s va
      if not table then pure va else if not (valid pte) then pure va else rest

pub fd_alloc : Cmd Space ℕ
unfolding fd_alloc_from
fd_alloc = fd_alloc_from (maxfd - 1) 0

-- `fdnum >= MAXFD` of an `int`, here its 32 bits: a negative number passes.
abbrev pub too_high : ℕ → Bool
too_high fdnum = leb maxfd fdnum && ltb fdnum (2 ^ 31)

pub fd_lookup : ℕ → Cmd Space ℕ
fd_lookup fdnum = if too_high fdnum then throw e_inval else do
  pte ← reads λ s. pte_at s (index2fd fdnum)
  if valid pte then pure (index2fd fdnum) else throw e_inval

-- `syscall_mem_unmap(0, va)`, its result dropped.
pub mem_unmap : ℕ → Cmd Space (Unit {0})
mem_unmap va =
    if is_illegal_va va then skip else modify λ s. record s { ptes = update s.ptes (vpn va) 0 }

abbrev pub fd_close : ℕ → Cmd Space (Unit {0})
fd_close fd = mem_unmap fd

pub dev_lookup : List Dev → ℕ → Cmd Space Dev
dev_lookup [] dev_id = throw e_inval
dev_lookup (d ∷ devtab) dev_id =
    let rest = dev_lookup devtab dev_id in if d.dev_id == dev_id then pure d else rest

-- After `dev_close`, whatever it returned.
closed : ℕ → Outcome Space ℕ → Outcome Space ℕ
closed fd (done r s) = (fd_close fd >> pure r) s
closed fd (fail e s) = (fd_close fd >> throw e) s
closed fd panic = panic

-- The offset is moved by what was read or written.
pub advanced : ℕ → ℕ → Cmd Space ℕ
advanced fd r =
    if r == 0 then pure r else do v ← get_fd fd; set_offset fd (u32 (v.fd_offset + r)); pure r

module _ (devtab : List Dev) where
  pub close : ℕ → Cmd Space ℕ
  unfolding closed
  close fdnum = do
    fd ← fd_lookup fdnum
    v ← get_fd fd
    d ← dev_lookup devtab v.fd_dev_id
    λ s. closed fd (d.dev_close fd s)

  pub read : ℕ → ℕ → ℕ → Cmd Space ℕ
  read fdnum buf n = do
    fd ← fd_lookup fdnum
    v ← get_fd fd
    d ← dev_lookup devtab v.fd_dev_id
    if v.fd_omode % 4 == 1
        then throw e_inval
        else do r ← d.dev_read fd buf n v.fd_offset; advanced fd r

  pub write : ℕ → ℕ → ℕ → Cmd Space ℕ
  write fdnum buf n = do
    fd ← fd_lookup fdnum
    v ← get_fd fd
    d ← dev_lookup devtab v.fd_dev_id
    if v.fd_omode % 4 == 0
        then throw e_inval
        else do r ← d.dev_write fd buf n v.fd_offset; advanced fd r

  -- The loop of `readn` after `tot` bytes.
  pub readn_rounds : ℕ → ℕ → ℕ → ℕ → ℕ → Cmd Space ℕ
  readn_rounds zero fdnum buf n tot = halt
  readn_rounds (suc rounds) fdnum buf n tot =
      let rest = readn_rounds rounds fdnum buf n in
      if not (ltb tot n) then pure tot else do
        m ← read fdnum (u32 (buf + tot)) (n - tot)
        if m == 0 then pure tot else rest (tot + m)

  pub readn : ℕ → ℕ → ℕ → Cmd Space ℕ
  unfolding readn_rounds
  readn fdnum buf n = readn_rounds (n + 1) fdnum buf n 0

pub seek : ℕ → ℕ → Cmd Space (Unit {0})
seek fdnum offset = do fd ← fd_lookup fdnum; set_offset fd offset

-- From `err` on.
pub unmap_pages : ℕ → ℕ → Cmd Space (Unit {0})
unfolding mem_unmap
unmap_pages zero nva = skip
unmap_pages (suc rounds) nva =
    let rest = unmap_pages rounds (u32 (nva + 2 ^ 12)) in do mem_unmap nva; rest

pub undone : ℕ → ℕ → Outcome Space (Unit {0}) → Outcome Space (Unit {0})
unfolding unmap_pages
undone newfd nva (done u s) = done u s
undone newfd nva (fail e s) = (mem_unmap newfd >> (unmap_pages 1024 nva >> throw e)) s
undone newfd nva panic = panic

-- `syscall_mem_map(0, src, 0, dst, perm)`. An address that the kernel refuses, or a lack of memory, is in its answer.
pub mapped_by : Option Errno → ℕ → ℕ → ℕ → Cmd Space (Unit {0})
mapped_by (some e) src dst perm = throw e
mapped_by none src dst perm = modify λ s. record s {
  tables = update s.tables (dst / 2 ^ 22) true;
  ptes = update s.ptes (vpn dst) (entry (ppn_of (pte_at s src)) perm);
}

abbrev pub Answers : Type 0
Answers = Space → ℕ → ℕ → Option Errno

module _ (answers : Answers) where
  pub mem_map : ℕ → ℕ → ℕ → Cmd Space (Unit {0})
  unfolding mapped_by
  mem_map src dst perm = do
    pte ← reads λ s. pte_at s src
    if not (valid pte) then throw e_inval else (λ s. mapped_by (answers s src dst) src dst perm s)

  -- The pages of data, `rounds` of them from `ova` on.
  pub dup_pages : ℕ → ℕ → ℕ → Cmd Space (Unit {0})
  unfolding mem_map
  dup_pages zero ova nva = skip
  dup_pages (suc rounds) ova nva =
      let rest = dup_pages rounds (u32 (ova + 2 ^ 12)) (u32 (nva + 2 ^ 12)) in
      do
        pte ← reads λ s. pte_at s ova
        if valid pte then mem_map ova nva (bit_and pte (bit_or pte_d pte_library)) else skip
        rest

  -- What `dup` maps.
  pub share : ℕ → ℕ → Cmd Space (Unit {0})
  unfolding dup_pages
  share oldfd newfd = do
    table ← reads λ s. table_at s (fd2data oldfd)
    if table then dup_pages 1024 (fd2data oldfd) (fd2data newfd) else skip
    pte ← reads λ s. pte_at s oldfd
    mem_map oldfd newfd (bit_and pte (bit_or pte_d pte_library))

  pub dup : List Dev → ℕ → ℕ → Cmd Space ℕ
  unfolding share undone
  dup devtab oldfdnum newfdnum = do
    oldfd ← fd_lookup oldfdnum
    ignore (close devtab newfdnum)
    let newfd = index2fd newfdnum
    λ s. undone newfd (fd2data newfd) (share oldfd newfd s)
    pure newfdnum
