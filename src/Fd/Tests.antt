-- ===== src/Fd/Tests.antt =====
-- Examples for user/lib/fd.c: descriptor 0 is open, with one page of data.
use buaa_os.Prelude.{ℕ, ◌<◌, ◌≡◌, ◌^◌, ◌||◌, refl, none, [], ◌∷◌, arith, ◌==◌, if◌then◌else◌}
use buaa_os.Prelude.Outcome.{Ends, Returns, pure}
use buaa_os.Fd.{Space, Dev, Answers, fd_at, index2fd, fd_alloc, dup, seek, readn}
use buaa_os.Fd.Alloc.{Tidy, Smallest, AllBusy, fd_alloc-Smallest}
use buaa_os.Fd.Dup.{Shared, Withdrawn, dup-Shared, dup-seek}
use buaa_os.Fd.Transfer.{AtMost, AllHonest, readn-AtMost}

abbrev space : Space
space = record {
  tables = λ i. i == 0x17f || i == 0x180;
  ptes = λ p. if p == 0x5fc00 then 0x5600 else if p == 0x60000 then 0x6600 else 0;
  fds = λ p. record { fd_dev_id = 1; fd_offset = 0; fd_omode = 2 };
  bytes = λ a. 0;
}

-- A device that reads one byte if it may.
abbrev one_byte : Dev
one_byte = record {
  dev_id = 1;
  dev_read = λ fd buf n off. pure (if n == 0 then 0 else 1);
  dev_write = λ fd buf n off. pure n;
  dev_close = λ fd. pure 0;
}

abbrev grants : Answers
grants s src dst = none

space-Tidy : Tidy space
space-Tidy va h = ground arith

space_words : (p : ℕ) → space.ptes p < 2 ^ 32
space_words p = ground arith

one_byte_lem : AllHonest (one_byte ∷ [])
one_byte_lem = (λ fd buf n off s. ground arith, tt)

fd_alloc-Smallest_example : Ends (Smallest space) (AllBusy space) (fd_alloc space)
fd_alloc-Smallest_example = fd_alloc-Smallest space space-Tidy

readn-AtMost_example : AtMost 5 (readn (one_byte ∷ []) 0 4096 5 space)
readn-AtMost_example = readn-AtMost (one_byte ∷ []) one_byte_lem 0 4096 5 space

dup-Shared_example :
    Ends
      (λ r t. (r ≡ 3) × Shared 0 3 space t)
      (λ e t. Withdrawn 3 space t)
      (dup grants (one_byte ∷ []) 0 3 space)
dup-Shared_example =
    dup-Shared grants 0 3 (ground arith) (ground arith) (ground arith) space space_words space-Tidy
      (one_byte ∷ []) refl refl

dup-seek_example :
    Ends
      (λ r t. Returns (λ _ u. (fd_at u (index2fd 0)).fd_offset ≡ 77) (seek r 77 t))
      (λ e t. Unit {0})
      (dup grants (one_byte ∷ []) 0 3 space)
dup-seek_example =
    dup-seek grants 0 3 (ground arith) (ground arith) (ground arith) space space_words space-Tidy
      (one_byte ∷ []) 77 refl refl
