-- ===== src/Log/Tests.antt =====
-- Runs of the log, and its theorem at a concrete text.
use goradio_samp.Base.{
  ◌≡◌, refl, ap, [], ◌∷◌, Bytes, codes, true, false, length, take, ◌-◌, arith, ℕ, zero, suc, ◌≤◌,
  ◌∙◌,
}
use goradio_samp.Base.Int.{pos}
use goradio_samp.Log.{Log, server_log, emit, log_init, log_debug, log_warn, Vsnprintf, format}
use goradio_samp.Log.Formatted.{Prints, format_lem}

abbrev quiet_log : Log
quiet_log = log_init true false (record { has_printf = false; debug_on = true; printed = [] })

-- A line of the debug level is left out.
quiet_log-printed :
    (log_warn (codes "50%") (log_debug (codes "x") quiet_log)).printed
    ≡ (server_log, codes "[goradio] WARN: 50%") ∷ []
unfolding emit
quiet_log-printed = refl

take-all : (n : ℕ) (text : Bytes) → length text ≤ n → take n text ≡ text
take-all zero [] h = refl
take-all zero (c ∷ text) h = absurd (omega (arith, h))
take-all (suc n) [] h = refl
take-all (suc n) (c ∷ text) h = ap (◌∷◌ c) (take-all n text (omega (arith, h)))

-- `vsnprintf` of "%s" and a text: the last place of the buffer is for the zero.
abbrev print_plain : Bytes → Vsnprintf
print_plain text size = (pos (length text), take (size - 1) text)

print_plain-Prints : (text : Bytes) → Prints (print_plain text) text
print_plain-Prints text = record {
  counted = λ size. refl;
  stored = λ size room.
      ap (take (length text)) (take-all (size - 1) text (omega (arith, room)))
      ∙ take-all (length text) text (omega arith);
}

format_lem_example : format (print_plain (codes "stream ended")) ≡ codes "stream ended"
format_lem_example =
    format_lem (print_plain (codes "stream ended")) (codes "stream ended")
      (print_plain-Prints (codes "stream ended"))
