-- ===== src/Fs/Dirs/Paths.antt =====
-- `walk_path` of fs/fs.c goes through the elements of the path.
use buaa_os.Prelude.{
  ℕ, zero, suc, ◌+◌, ◌≤◌, ◌<◌, ◌≡◌, refl, true, false, not, Option, none, some, List, [], ◌∷◌, ◌++◌,
  arith, length, leb, ◌==◌, if◌then◌else◌, Bool-cases, ap, sym, ◌∙◌, inl, inr,
}
use mathlib.Core.List.{append-nil, append_assoc}
use buaa_os.Prelude.Outcome.{
  Outcome, Cmd, Errno, e_not_found, e_bad_path, done, fail, panic, pure, ◌>>=◌,
}
use buaa_os.Fs.{Fs, Answer}
use buaa_os.Fs.Data.{FileRef, root, maxnamelen, ftype_dir}
use buaa_os.Fs.Files.{get_file, node_at}
use buaa_os.Fs.Dirs.{
  is_slash, skip_slash, first_elem, after_elem, Walk, found, missing, failed, missed, looked_up,
  dir_lookup, walk_rounds, walk_path,
}

-- The elements of a path, without the empty ones; `acc` is the start of the first.
abbrev keep : List ℕ → List (List ℕ) → List (List ℕ)
keep [] names = names
keep (c ∷ acc) names = (c ∷ acc) ∷ names

pub elements : List ℕ → List ℕ → List (List ℕ)
elements acc [] = keep acc []
elements acc (c ∷ p) =
    let ends = keep acc (elements [] p) in
    let goes_on = elements (acc ++ c ∷ []) p in if is_slash c then ends else goes_on

module _ (d : ℕ) (p : List ℕ) (e : is_slash d ≡ true) where
  elements-slash : (acc : List ℕ) → elements acc (d ∷ p) ≡ keep acc (elements [] p)
  unfolding elements
  elements-slash acc = rw e

  skip_slash-slash : skip_slash (d ∷ p) ≡ skip_slash p
  unfolding skip_slash
  skip_slash-slash = rw e

  first_elem-slash : first_elem (d ∷ p) ≡ []
  unfolding first_elem
  first_elem-slash = rw e

  after_elem-slash : after_elem (d ∷ p) ≡ d ∷ p
  unfolding after_elem
  after_elem-slash = rw e

module _ (d : ℕ) (p : List ℕ) (e : is_slash d ≡ false) where
  elements-other : (acc : List ℕ) → elements acc (d ∷ p) ≡ elements (acc ++ d ∷ []) p
  unfolding elements
  elements-other acc = rw e

  skip_slash-other : skip_slash (d ∷ p) ≡ d ∷ p
  unfolding skip_slash
  skip_slash-other = rw e

  first_elem-other : first_elem (d ∷ p) ≡ d ∷ first_elem p
  unfolding first_elem
  first_elem-other = rw e

  after_elem-other : after_elem (d ∷ p) ≡ after_elem p
  unfolding after_elem
  after_elem-other = rw e

elements-skip_slash : (p : List ℕ) → elements [] (skip_slash p) ≡ elements [] p
unfolding skip_slash
elements-skip_slash [] = refl
elements-skip_slash (c ∷ p) = elim (Bool-cases (is_slash c)) [
  | inl e ↦
      ap (elements []) (skip_slash-slash c p e)
      ∙ elements-skip_slash p
      ∙ sym (elements-slash c p e [])
  | inr e ↦ ap (elements []) (skip_slash-other c p e)
]

elements-first :
    (c : ℕ) (acc p : List ℕ)
    → elements (c ∷ acc) p ≡ (c ∷ acc ++ first_elem p) ∷ elements [] (skip_slash (after_elem p))
unfolding elements first_elem after_elem skip_slash
elements-first c acc [] = rw append-nil refl
elements-first c acc (d ∷ p) = elim (Bool-cases (is_slash d)) [
  | inl e ↦
      elements-slash d p e (c ∷ acc)
      ∙ rw (
        first_elem-slash d p e,
        after_elem-slash d p e,
        skip_slash-slash d p e,
        elements-skip_slash p,
        append-nil,
      )
  | inr e ↦
      elements-other d p e (c ∷ acc)
      ∙ elements-first c (acc ++ d ∷ []) p
      ∙ rw (first_elem-other d p e, after_elem-other d p e, append_assoc)
]

-- The same walk on the elements: no element is left when the path has ended.
missed_name : FileRef → List ℕ → List (List ℕ) → Errno → Walk
missed_name dir name [] e_not_found = missing dir name
missed_name dir name [] e = failed e
missed_name dir name (n ∷ names) e = failed e

resolved :
    FileRef
    → List ℕ
    → List (List ℕ)
    → (FileRef → Cmd Fs Walk)
    → Outcome Fs FileRef
    → Outcome Fs Walk
unfolding missed_name
resolved dir name names rest (done file s) = rest file s
resolved dir name names rest (fail e s) = done (missed_name dir name names e) s
resolved dir name names rest panic = panic

-- From `file`, in the directory `dir`, along the elements.
pub resolve : Answer → List (List ℕ) → Option FileRef → FileRef → Cmd Fs Walk
unfolding resolved
resolve mem_alloc [] dir file = pure (found dir file)
resolve mem_alloc (name ∷ names) dir file =
    let rest = resolve mem_alloc names (some file) in
    if leb maxnamelen (length name) then pure (failed e_bad_path) else (do
      v ← get_file file
      if not (v.f_type == ftype_dir)
          then pure (failed e_not_found)
          else (λ s. resolved file name names rest (dir_lookup mem_alloc file name s)))

-- A path that does not start with a slash.
abbrev Starts : List ℕ → Type 0
Starts [] = Unit {0}
Starts (c ∷ p) = is_slash c ≡ false

skip_slash-Starts : (p : List ℕ) → Starts (skip_slash p)
unfolding skip_slash
skip_slash-Starts [] = tt
skip_slash-Starts (c ∷ p) = elim (Bool-cases (is_slash c)) [
  | inl e ↦ rw (skip_slash-slash c p e) (skip_slash-Starts p)
  | inr e ↦ rw (skip_slash-other c p e) e
]

length-skip_slash : (p : List ℕ) → length (skip_slash p) ≤ length p
unfolding skip_slash
length-skip_slash [] = omega arith
length-skip_slash (c ∷ p) = ground (arith, length-skip_slash p)

length-after_elem : (p : List ℕ) → length (after_elem p) ≤ length p
unfolding after_elem
length-after_elem [] = omega arith
length-after_elem (c ∷ p) = ground (arith, length-after_elem p)

elements-Starts :
    (c : ℕ) (p : List ℕ)
    → is_slash c ≡ false
    → elements [] (c ∷ p) ≡ (c ∷ first_elem p) ∷ elements [] (skip_slash (after_elem p))
elements-Starts c p e = elements-other c p e [] ∙ elements-first c [] p

missed_same :
    (dir : FileRef) (name : List ℕ) (e : Errno) → missed dir name [] e ≡ missed_name dir name [] e
unfolding missed missed_name
missed_same dir name e_not_found = refl
missed_same dir name _ = refl

missed-elements :
    (dir : FileRef) (name q : List ℕ) (e : Errno)
    → Starts q
    → missed dir name q e ≡ missed_name dir name (elements [] q) e
unfolding missed missed_name elements
missed-elements dir name [] e start = missed_same dir name e
missed-elements dir name (c ∷ q) e start = rw (elements-Starts c q start) refl

module _ (mem_alloc : Answer) where
  looked_up-resolved :
      (dir : FileRef) (name q : List ℕ) (rest rest' : FileRef → Cmd Fs Walk)
      (o : Outcome Fs FileRef)
      → Starts q
      → ((f : FileRef) (s : Fs) → rest f s ≡ rest' f s)
      → looked_up dir name q rest o ≡ resolved dir name (elements [] q) rest' o
  unfolding looked_up resolved
  looked_up-resolved dir name q rest rest' (done f s) start same = same f s
  looked_up-resolved dir name q rest rest' (fail e s) start same =
      ap (λ w. done w s) (missed-elements dir name q e start)
  looked_up-resolved dir name q rest rest' panic start same = refl

  walk_rounds-resolve :
      (rounds : ℕ) (path : List ℕ) (dir : Option FileRef) (file : FileRef) (s : Fs)
      → Starts path
      → length path < rounds
      → walk_rounds mem_alloc rounds path dir file s
        ≡ resolve mem_alloc (elements [] path) dir file s
  unfolding walk_rounds resolve elements
  walk_rounds-resolve zero path dir file s start enough = absurd (omega arith)
  walk_rounds-resolve (suc rounds) [] dir file s start enough = refl
  walk_rounds-resolve (suc rounds) (c ∷ p) dir file s start enough =
      let shorter : length (skip_slash (after_elem p)) < rounds =
        omega (arith, length-skip_slash (after_elem p), length-after_elem p) in
      rw (elements-Starts c p start, first_elem-other c p start, after_elem-other c p start)
        (elim (Bool-cases (leb maxnamelen (length (c ∷ first_elem p)))) [
          | inl long ↦ rw long
          | inr short ↦ elim (Bool-cases (not ((node_at s file).f_type == ftype_dir))) [
            | inl plain ↦ rw (short, plain)
            | inr folder ↦
                rw (short, folder)
                  (looked_up-resolved file (c ∷ first_elem p) (skip_slash (after_elem p))
                    (walk_rounds mem_alloc rounds (skip_slash (after_elem p)) (some file))
                    (resolve mem_alloc (elements [] (skip_slash (after_elem p))) (some file))
                    (dir_lookup mem_alloc file (c ∷ first_elem p) s)
                    (skip_slash-Starts (after_elem p))
                    (λ f t.
                      walk_rounds-resolve rounds (skip_slash (after_elem p)) (some file) f t
                        (skip_slash-Starts (after_elem p)) shorter))
          ]
        ])

  -- `walk_path` goes from the root through the elements of the path, whatever slashes there are before,
  -- between and behind them: it looks up one after the other, each in the directory that the one before
  -- it is, and stops at the first error. Its loop never runs out of rounds.
  pub walk_path-resolve :
      (path : List ℕ) (s : Fs)
      → walk_path mem_alloc path s ≡ resolve mem_alloc (elements [] path) none root s
  unfolding walk_path
  walk_path-resolve path s =
      walk_rounds-resolve (length (skip_slash path) + 1) (skip_slash path) none root s
        (skip_slash-Starts path) (omega arith)
      ∙ ap (λ names. resolve mem_alloc names none root s) (elements-skip_slash path)
