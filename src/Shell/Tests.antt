-- ===== src/Shell/Tests.antt =====
-- Examples for user/sh.c: the line `ls|wc` at address 10.
use buaa_os.Prelude.{refl, arith, ◌==◌, if◌then◌else◌}
use buaa_os.Prelude.Outcome.{Returns}
use buaa_os.Bytes.{Bytes}
use buaa_os.Shell.{Lexer, token, next_token}
use buaa_os.Shell.Tokens.{Lexes, next_token-Lexes}

abbrev line : Bytes
line a =
    if a == 10
    then b'l'
    else if a == 11
    then b's'
    else if a == 12
    then b'|'
    else if a == 13
    then b'w'
    else if a == 14
    then b'c'
    else 0

-- `ls` is read ahead.
abbrev lexer : Lexer
lexer = record { next = token b'w' 10 12; memory = line }

next_token-Lexes_example : Returns (λ t m'. Lexes 15 12 line t m') (next_token 12 line)
next_token-Lexes_example =
    next_token-Lexes 15 12 line (ground arith) (ground arith) (ground arith) refl
