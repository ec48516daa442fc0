-- ===== src/Print/Tests.antt =====
-- Examples for lib/print.c.
use buaa_os.Prelude.{◌≡◌, refl, inr, true, false, some, [], ◌∷◌}
use buaa_os.Print.{int, str, print_num, print_str, vprintfmt}
use buaa_os.Print.Numbers.{read_from, read_from-print_num}

read_from-print_num_example : read_from 16 0 (print_num 0xbeef 16 false 8 false b'0' true) ≡ 0xbeef
read_from-print_num_example = read_from-print_num 0xbeef 16 8 true (inr (inr (inr refl)))

-- `printk("%04x", 0xff)` and `printk("%d", -12)`
zero_padded :
    vprintfmt (b'%' ∷ b'0' ∷ b'4' ∷ b'x' ∷ []) (int 0xff ∷ [])
    ≡ some (b'0' ∷ b'0' ∷ b'f' ∷ b'f' ∷ [])
unfolding vprintfmt print_num
zero_padded = refl

signed : vprintfmt (b'%' ∷ b'd' ∷ []) (int 0xfffffff4 ∷ []) ≡ some (b'-' ∷ b'1' ∷ b'2' ∷ [])
unfolding vprintfmt print_num
signed = refl

left :
    vprintfmt (b'%' ∷ b'-' ∷ b'4' ∷ b's' ∷ b'|' ∷ []) (str (b'h' ∷ b'i' ∷ []) ∷ [])
    ≡ some (b'h' ∷ b'i' ∷ b' ' ∷ b' ' ∷ b'|' ∷ [])
unfolding vprintfmt print_str
left = refl
