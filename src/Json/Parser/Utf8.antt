-- ===== src/Json/Parser/Utf8.antt =====
-- `AppendUtf8`: src/json.cpp. `0xC0 | x` and the like are sums, since the bits do not overlap.
use goradio_samp.Base.{ℕ, ◌+◌, ◌/◌, ◌%◌, ◌^◌, [], ◌∷◌, ltb, if◌then◌else◌, Bytes}

-- The six bits of `cp` from bit `k` on, in a continuation byte.
abbrev tail_byte : ℕ → ℕ → ℕ
tail_byte cp k = 0x80 + cp / 2 ^ k % 0x40

unfoldable pub append_utf8 : ℕ → Bytes
append_utf8 cp =
    if ltb cp 0x80
    then cp ∷ []
    else if ltb cp 0x800
    then (0xc0 + cp / 2 ^ 6) ∷ tail_byte cp 0 ∷ []
    else if ltb cp 0x10000
    then (0xe0 + cp / 2 ^ 12) ∷ tail_byte cp 6 ∷ tail_byte cp 0 ∷ []
    else (0xf0 + cp / 2 ^ 18) ∷ tail_byte cp 12 ∷ tail_byte cp 6 ∷ tail_byte cp 0 ∷ []
