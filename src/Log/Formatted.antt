-- ===== src/Log/Formatted.antt =====
-- `Format` of src/log.cpp, with what the C standard says of `vsnprintf`.
use goradio_samp.Base.{
  ℕ, suc, ◌<◌, ◌≡◌, refl, ◌∙◌, Bytes, arith, Bool-cases, inl, inr, length, take, ltb, ltb→lt,
  lt→ltb, false,
}
use goradio_samp.Base.Int.{pos}
use goradio_samp.Log.{Vsnprintf, format, format_loop}

-- Whatever the size of the buffer the result is the length of the whole text, and the text stands in
-- the buffer where there is room for it and for the zero behind it.
pub record Prints (print : Vsnprintf) (text : Bytes) : Type 0 where
  pub counted : (size : ℕ) → (print size).0 ≡ pos (length text)
  pub stored : (size : ℕ) → length text < size → take (length text) (print size).1 ≡ text

format_loop-room :
    (f size : ℕ) (print : Vsnprintf) (text : Bytes)
    → Prints print text
    → length text < size
    → format_loop (suc f) size print ≡ text
unfolding format_loop
format_loop-room f size print text h room =
    rw (format_loop, h.counted size, lt→ltb (length text) size room) (h.stored size room)

format_loop-wider :
    (f size : ℕ) (print : Vsnprintf) (text : Bytes)
    → Prints print text
    → ltb (length text) size ≡ false
    → format_loop (suc f) size print ≡ format_loop f (suc (length text)) print
unfolding format_loop
format_loop-wider f size print text h full = rw (format_loop, h.counted size, full) refl

-- `Format` ends and hands out the whole text, however long it is: a text that does not fit the first
-- buffer fits the second one.
pub format_lem : (print : Vsnprintf) (text : Bytes) → Prints print text → format print ≡ text
unfolding format
format_lem print text h = elim (Bool-cases (ltb (length text) 256)) [
  | inl e ↦ format_loop-room 1 256 print text h (ltb→lt (length text) 256 e)
  | inr e ↦
      format_loop-wider 1 256 print text h e
      ∙ format_loop-room 0 (suc (length text)) print text h (omega arith)
]
