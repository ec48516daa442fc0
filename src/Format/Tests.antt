-- ===== src/Format/Tests.antt =====
-- Examples for tools/fsformat.c: a file `a` of two chunks beside a directory `d` with an empty file `e`.
use buaa_os.Prelude.{ℕ, zero, suc, ◌+◌, ◌≡◌, refl, none, List, [], ◌∷◌, arith}
use buaa_os.Prelude.Outcome.{Outcome, done, fail, panic, Returns, IfReturns}
use buaa_os.Fs.{Answer}
use buaa_os.Fs.Data.{by2blk, blank_file}
use buaa_os.Fs.Start.{fs_init}
use buaa_os.Fs.Start.Boot.{Ready}
use buaa_os.Format.{
  Image, Trees, nil, cons, file, directory, nblock, format, write_trees, write_file, copy_name,
  word_after, char_at, start_directory,
}
use buaa_os.Format.Bounds.{ShortName, ShortNames}
use buaa_os.Format.Starts.{Formatted, server_on, format-fs_init}

abbrev tree : Trees
tree =
    cons (file (b'a' ∷ []) (by2blk + 1) ((λ i. 7) ∷ (λ i. 8) ∷ []))
      (cons (directory (b'd' ∷ []) (cons (file (b'e' ∷ []) 0 []) nil)) nil)

-- The blocks that are used, if `format` returns.
abbrev used : Outcome Image (Unit {0}) → ℕ
used (done _ t) = t.nextbno
used (fail e t) = 0
used panic = 0

-- Three blocks before the data, the root's block, two chunks and the block of the directory.
tree_fits : used (format tree) ≡ 7
unfolding format write_trees write_file start_directory
tree_fits = refl

-- A name of 177 characters runs over the fields behind `f_name` up to the first byte of `f_indirect`.
abbrev many : ℕ → List ℕ
many zero = []
many (suc n) = b'A' ∷ many n

overrun : (copy_name (many 177) blank_file).f_indirect ≡ 0x41
unfolding copy_name word_after char_at
overrun = refl

abbrev grants : Answer
grants s i = none

format-fs_init_example :
    IfReturns
      (λ _ t.
        Formatted t × Returns (λ _ u. Ready (server_on t) nblock u) (fs_init grants (server_on t)))
      (format tree)
unfolding ShortNames ShortName
format-fs_init_example =
    format-fs_init grants (λ s i. refl) tree (omega arith, ((omega arith, tt), tt))
