-- ===== src/Serve/Opens.antt =====
-- The table of open files of fs/serv.c: ids that are given, looked up and gone.
use buaa_os.Prelude.{
  ℕ, zero, suc, ◌+◌, ◌%◌, ◌^◌, ◌<◌, ◌≤◌, ◌≡◌, ◌≢◌, ◌⊎◌, inl, inr, refl, ap, sym, ◌∙◌, subst, true,
  false, Option, some, arith, ◌==◌, ==_eq, update, Bool-cases, Option-cases,
}
use buaa_os.Prelude.Outcome.{Errno, e_inval, e_max_open, done, fail, Ends, Returns}
use buaa_os.Memory.{u32}
use buaa_os.Serve.{
  Server, Open, maxopen, grant, take_open, open_from, open_alloc, open_lookup, init_from,
  serve_init,
}

-- An id names its entry, and is a word.
abbrev pub IsTable : Server → Type 0
IsTable s =
    (i : ℕ)
    → i < maxopen
    → ((s.opentab i).o_fileid % maxopen ≡ i) × ((s.opentab i).o_fileid < 2 ^ 32)

-- An id that is looked up later, in a state with the same table.
abbrev pub Later : Server → Server → Type 0
Later t u = u.opentab ≡ t.opentab

-- The entry `i` is given under a new id.
pub record Given (s : Server) (i : ℕ) (t : Server) : Type 0 where
  pub slot : i < maxopen
  pub unused : s.refs i < 2
  pub before : (j : ℕ) → j < i → 2 ≤ s.refs j
  pub table : IsTable t
  pub others : (j : ℕ) → j ≢ i → t.opentab j ≡ s.opentab j
  pub fresh :
      (u : Server) → Later t u → u.refs i ≢ 1 → open_lookup (t.opentab i).o_fileid u ≡ done i u
  pub stale : (u : Server) → Later t u → open_lookup (s.opentab i).o_fileid u ≡ fail e_inval u

-- No entry is left, or the kernel has no page for the first that is.
abbrev pub Refused : (Server → ℕ → Option Errno) → Server → Errno → Server → Type 0
Refused alloc s e t =
    (t ≡ s)
    × (((e ≡ e_max_open) × ((j : ℕ) → j < maxopen → 2 ≤ s.refs j))
        ⊎ ((i : ℕ) × (s.refs i ≡ 0) × (alloc s i ≡ some e)))

lookup_found :
    (u : Server) (id i : ℕ)
    → id % maxopen ≡ i
    → u.refs i ≢ 1
    → (u.opentab i).o_fileid ≡ id
    → open_lookup id u ≡ done i u
unfolding open_lookup
lookup_found u id i at free same =
    let more : (u.refs i == 1) ≡ false = ground arith in
    let mine : ((u.opentab i).o_fileid == id) ≡ true = ground arith in rw (at, more, mine) refl

lookup_stale :
    (u : Server) (id i : ℕ)
    → id % maxopen ≡ i
    → (u.opentab i).o_fileid ≢ id
    → open_lookup id u ≡ fail e_inval u
unfolding open_lookup
lookup_stale u id i at other =
    let not_mine : ((u.opentab i).o_fileid == id) ≡ false = ground arith in
    elim (Bool-cases (u.refs i == 1)) [
      | inl only ↦ rw (at, only) refl
      | inr more ↦ rw (at, more, not_mine) refl
    ]

module _ (alloc : Server → ℕ → Option Errno) (s : Server) (ok : IsTable s) where
  abbrev Free : ℕ → Type 0
  Free i = (j : ℕ) → j < i → 2 ≤ s.refs j

  -- From a state that differs from `s` in the references only.
  give :
      (i : ℕ) (t : Server)
      → i < maxopen
      → s.refs i < 2
      → Free i
      → t.opentab ≡ s.opentab
      → Returns (λ r u. Given s r u) (take_open i t)
  unfolding take_open
  give i t low unused busy same = record {
    slot = low;
    unused = unused;
    before = busy;
    table = λ j l. elim (Bool-cases (j == i)) [
      | inl z ↦
          let here : j ≡ i = ==_eq j i z in
          subst (λ k. ((tab k).o_fileid % maxopen ≡ k) × ((tab k).o_fileid < 2 ^ 32)) (sym here)
            (rw placed (omega (arith, (ok i low).0), omega arith))
      | inr nz ↦ rw (elsewhere j (ground arith)) (ok j l)
    ];
    others = λ j ne. elsewhere j ne;
    fresh = λ u later free.
        lookup_found u (tab i).o_fileid i (rw placed (omega (arith, (ok i low).0))) free
          (ap (λ (f : ℕ → Open). (f i).o_fileid) later);
    stale = λ u later.
        lookup_stale u (s.opentab i).o_fileid i (ok i low).0
          (λ e. changed (sym (ap (λ (f : ℕ → Open). (f i).o_fileid) later) ∙ e));
  }
    where
      tab : ℕ → Open
      tab =
          update t.opentab i
            (record (t.opentab i) { o_fileid = u32 ((t.opentab i).o_fileid + maxopen) })

      placed : (tab i).o_fileid ≡ u32 ((s.opentab i).o_fileid + maxopen)
      placed = let self : (i == i) ≡ true = ground arith in rw (self, same) refl

      elsewhere : (j : ℕ) → j ≢ i → tab j ≡ s.opentab j
      elsewhere j ne = let other : (j == i) ≡ false = ground arith in rw (other, same) refl

      changed : (tab i).o_fileid ≡ (s.opentab i).o_fileid → ⊥
      changed e = omega (arith, sym placed ∙ e, (ok i low).1)

  open_from-Given :
      (rounds i : ℕ)
      → i + rounds ≡ maxopen
      → Free i
      → Ends (λ r t. Given s r t) (λ e t. Refused alloc s e t) (open_from alloc rounds i s)
  unfolding open_from grant
  open_from-Given zero i sum busy = (refl, inl (refl, λ j l. busy j (omega arith)))
  open_from-Given (suc rounds) i sum busy = elim (Bool-cases (s.refs i == 0)) [
    | inl z ↦ elim (Option-cases (alloc s i)) [
      | inr (e, at) ↦ rw (z, at) (refl, inr (i, ground arith, at))
      | inl at ↦ rw (z, at) (give i _ (omega arith) (ground arith) busy refl)
    ]
    | inr nz ↦ elim (Bool-cases (s.refs i == 1)) [
      | inl o ↦ rw (nz, o) (give i s (omega arith) (ground arith) busy refl)
      | inr used ↦
          rw (nz, used)
            (open_from-Given rounds (i + 1) (omega arith) (λ j l. elim (Bool-cases (j == i)) [
              | inl here ↦ rw (==_eq j i here) (ground arith)
              | inr less ↦ busy j (ground arith)
            ]))
    ]
  ]

  -- In a table whose ids name their entries: `open_alloc` gives the first entry that no client has, and keeps the
  -- others. The table is well formed again. The new id is found from then on, unless only the server has the page,
  -- and the old id of the entry is refused. If it fails, nothing has changed, and either every entry is in use or the
  -- kernel has refused a page.
  pub open_alloc-Given : Ends (λ r t. Given s r t) (λ e t. Refused alloc s e t) (open_alloc alloc s)
  unfolding open_alloc
  open_alloc-Given = open_from-Given maxopen 0 refl (λ j l. absurd (omega arith))

init_from-IsTable :
    (rounds i : ℕ) (s : Server)
    → i + rounds ≡ maxopen
    → ((j : ℕ) → j < i → (s.opentab j).o_fileid ≡ j)
    → Returns (λ _ t. IsTable t) (init_from rounds i s)
unfolding init_from
init_from-IsTable zero i s sum named = λ j low.
    let at : (s.opentab j).o_fileid ≡ j = named j (omega arith) in (omega arith, omega arith)
init_from-IsTable (suc rounds) i s sum named =
    init_from-IsTable rounds (i + 1) _ (omega arith) (λ j low. elim (Bool-cases (j == i)) [
      | inl here ↦ rw here (sym (==_eq j i here))
      | inr less ↦ rw less (named j (ground arith))
    ])

-- `serve_init` makes the table well formed.
pub serve_init-IsTable : (s : Server) → Returns (λ _ t. IsTable t) (serve_init s)
unfolding serve_init
serve_init-IsTable s = init_from-IsTable maxopen 0 s refl (λ j low. absurd (omega arith))
