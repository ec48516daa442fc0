-- ===== src/Client/Tests.antt =====
-- Examples for user/lib/file.c: a file of five bytes, that is written from byte 3 on, beyond its end and its page.
use buaa_os.Prelude.{ℕ, ◌+◌, refl, true, Option, none, [], ltb, arith}
use buaa_os.Prelude.Outcome.{Errno, Returns}
use buaa_os.Client.{Client, Sent, file_write}
use buaa_os.Client.Transfer.{Written, file_write-file_read}

abbrev five : Client
five = record {
  is_open = true;
  is_file = true;
  f_size = 5;
  mapped = λ p. ltb p 1;
  window = λ a. a;
  sent = [];
}

abbrev answer : Client → Sent → Option Errno
answer s r = none

abbrev perm : Client → ℕ → ℕ
perm s p = 0x604

abbrev block : Client → ℕ → ℕ → ℕ
block s p a = 0

file_write-file_read_example :
    Returns
      (Written 5000 3 (λ j. j + 1) five)
      (file_write answer perm block 5000 3 (λ j. j + 1) five)
file_write-file_read_example =
    file_write-file_read answer perm block (λ s r. refl) (λ s p. refl) 5000 3 (λ j. j + 1) five
      (omega arith) refl refl (λ q. refl)
