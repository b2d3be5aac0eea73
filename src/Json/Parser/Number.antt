-- ===== src/Json/Parser/Number.antt =====
-- `ParseNumber`: src/json.cpp.
use goradio_samp.Base.{ℕ, Bool, ◌||◌, [], ◌∷◌, ◌++◌, ◌==◌, within, if◌then◌else◌, Bytes}
use goradio_samp.Json.Value.{JsonValue, number}
use goradio_samp.Json.Parser.Outcome.{Result, ok, err, invalid_number}

abbrev pub is_number_char : ℕ → Bool
is_number_char c =
    within b'0' b'9' c || c == b'.' || c == b'e' || c == b'E' || c == b'+' || c == b'-'

-- The longest run of such characters, and what is behind it.
unfoldable pub number_run : Bytes → Bytes × Bytes
number_run [] = ([], [])
number_run (c ∷ s) =
    let (run, rest) = number_run s in if is_number_char c then (c ∷ run, rest) else ([], c ∷ s)

abbrev number_tail : Bytes → Bytes → Result (JsonValue × Bytes)
number_tail sign s =
    let (run, rest) = number_run s in
    elim run [ [] ↦ err invalid_number s | c ∷ cs ↦ ok (number (sign ++ c ∷ cs), rest) ]

unfoldable pub parse_number : Bytes → Result (JsonValue × Bytes)
unfolding number_run
parse_number [] = number_tail [] []
parse_number (c ∷ s) =
    if c == b'-' || c == b'+' then number_tail (c ∷ []) s else number_tail [] (c ∷ s)
