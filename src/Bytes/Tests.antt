-- ===== src/Bytes/Tests.antt =====
-- Examples for lib/string.c: eleven bytes between addresses of the same alignment.
use buaa_os.Prelude.{◌+◌, ◌%◌, ◌^◌, ◌≤◌, ◌≡◌, ◌&&◌, inl, arith, ltb, leb, if◌then◌else◌}
use buaa_os.Bytes.{memcpy, memset}
use buaa_os.Bytes.Fill.{memset-filled}
use buaa_os.Bytes.Copy.{copied, memcpy-copied}

abbrev low : 6 + 11 ≤ 102
low = omega arith

memcpy-copied_example :
    memcpy 6 102 11 (λ i. i) 9 ≡ copied (λ i. i) 6 102 11 (inl low) (omega arith) (omega arith) 11 9
memcpy-copied_example = memcpy-copied (λ i. i) 6 102 11 (inl low) (omega arith) (omega arith) 9

-- 11 bytes from address 6 on are filled with 0x1ff, of which the low byte counts.
memset-filled_example :
    memset 6 0x1ff 11 (λ j. j) 9 ≡ (if leb 6 9 && ltb 9 (6 + 11) then 0x1ff % 2 ^ 8 else 9)
memset-filled_example = memset-filled 6 0x1ff 11 (λ j. j) 9 (omega arith)
