-- ===== src/Http/Reader.antt =====
-- The receiving half of `HttpConnection`: `Fill`, `ReadLine`, `ReadBody` and `ReadFullBody` of
-- src/http.cpp.
use goradio_samp.Base.{
  ℕ, zero, suc, ◌+◌, ◌-◌, Bool, true, false, List, [], ◌∷◌, ◌++◌, none, some, ◌==◌, ltb,
  if◌then◌else◌, Bytes, codes, length, take, drop, is_empty, split_first,
}
use goradio_samp.Base.Int.{ℤ, pos, negsuc}
use goradio_samp.Clib.{strtoll_16}
use goradio_samp.Http.Url.{Outcome, ok, err}
use goradio_samp.Http.Wire.{Recv, bytes, timed_out, broken, delivered}

pub data BodyMode : Type 0 where
  body_none body_length body_chunked body_until_close : BodyMode

-- `buf_` with its position, what the transport will deliver, and the state of the body.
-- `body_remaining_` is read only where it is positive.
pub record Reader : Type 0 where
  pub buf : Bytes
  pub buf_pos : ℕ
  pub recvs : List Recv
  pub body_mode : BodyMode
  pub body_remaining : ℕ
  pub chunk_need_size : Bool
  pub body_done : Bool

-- The bytes read from the socket and not yet consumed.
abbrev pub unread : Reader → Bytes
unread r = drop r.buf_pos r.buf

-- All that is left to consume. The loops below take it for their fuel.
abbrev pub supply : Reader → ℕ
supply r = length (unread r) + length (delivered r.recvs)

pub data Filled : Type 0 where
  filled idle : Filled
  lost : Bytes → Filled

-- The consumed prefix goes once it is longer than this.
unfoldable pub reclaim : Reader → Reader
reclaim r = if ltb 8192 r.buf_pos then record r { buf = unread r; buf_pos = 0 } else r

abbrev pub received : Reader → List Recv → Reader × Filled
received r [] = (r, lost (codes "connection closed by peer"))
received r (bytes c s ∷ rs) = (record r { buf = r.buf ++ c ∷ s; recvs = rs }, filled)
received r (timed_out ∷ rs) = (record r { recvs = rs }, idle)
received r (broken e ∷ rs) = (record r { recvs = rs }, lost e)

unfoldable pub fill : Reader → Reader × Filled
unfolding reclaim
fill r = received (reclaim r) r.recvs

pub data Line : Type 0 where
  line : Bytes → Line
  no_line : Line
  line_error : Bytes → Line

-- The line without a carriage return at its end.
unfoldable pub strip_cr : Bytes → Bytes
strip_cr [] = []
strip_cr (c ∷ []) = if c == 13 then [] else c ∷ []
strip_cr (c ∷ d ∷ s) = c ∷ strip_cr (d ∷ s)

unfoldable pub line_loop : ℕ → Reader → Reader × Line
unfolding fill strip_cr split_first
line_loop zero r = (r, no_line)
line_loop (suc f) r = elim (split_first 10 (unread r)) [
  | some (text, rest) ↦ (record r { buf_pos = r.buf_pos + suc (length text) }, line (strip_cr text))
  | none ↦
      let (r', got) = fill r in
      elim got [ lost e ↦ (r', line_error e) | idle ↦ (r', no_line) | filled ↦ line_loop f r' ]
]

-- Each round but the last takes one receive.
unfoldable pub read_line : Reader → Reader × Line
unfolding line_loop
read_line r = line_loop (suc (length r.recvs)) r

-- `ReadBody`: 1 with the bytes to append, 0, or -1 with the error's text.
pub data Body : Type 0 where
  piece : Bytes → Body
  quiet : Body
  ended : Bytes → Body

-- At most `body_remaining_` of what is there; `finish` where nothing remains.
unfoldable pub take_body : (Reader → Reader) → Reader → Reader × Body
take_body finish r =
    let available = unread r in
    let got = take r.body_remaining available in
    let remaining = r.body_remaining - length got in
    let r' = record r { buf_pos = r.buf_pos + length got; body_remaining = remaining } in
    (if remaining == 0 then finish r' else r', piece got)

-- `Fill` where nothing is left in the buffer, then `use`.
unfoldable pub with_bytes :
    (Reader → Reader × Body) → (Reader → Bytes → Reader × Body) → Reader → Reader × Body
unfolding fill
with_bytes use_bytes on_lost r =
    if is_empty (unread r)
    then (let (r', got) = fill r in
        elim got [ lost e ↦ on_lost r' e | idle ↦ (r', quiet) | filled ↦ use_bytes r' ])
    else use_bytes r

abbrev stop : Reader → Bytes → Reader × Body
stop r e = (r, ended e)

abbrev pub finish_body : Reader → Reader
finish_body r = record r { body_done = true }

abbrev pub finish_chunk : Reader → Reader
finish_chunk r = record r { chunk_need_size = true }

-- The size line's number, up to a semicolon.
unfoldable pub chunk_size : Bytes → ℤ
unfolding strtoll_16 split_first
chunk_size text = elim (split_first b';' text) [
  | none ↦ strtoll_16 text
  | some (size, extension) ↦ strtoll_16 size
]

-- The loop over blank lines, up to the size of the next chunk.
unfoldable pub size_loop : ℕ → Reader → Reader × Line
unfolding read_line
size_loop zero r = (r, no_line)
size_loop (suc f) r =
    let (r', got) = read_line r in
    elim got [
      | line_error e ↦ (r', line_error e)
      | no_line ↦ (r', no_line)
      | line text ↦ elim text [ [] ↦ size_loop f r' | c ∷ s ↦ (r', line (c ∷ s)) ]
    ]

abbrev start_chunk : Reader → ℤ → Reader × Bool
start_chunk r (pos zero) = (finish_body r, false)
start_chunk r (pos (suc n)) = (record r { body_remaining = suc n; chunk_need_size = false }, true)
start_chunk r (negsuc n) = (finish_body r, false)

unfoldable pub chunk_body : Reader → Reader × Body
unfolding take_body with_bytes
chunk_body r = with_bytes (take_body finish_chunk) stop r

unfoldable pub next_chunk : Reader → Reader × Body
unfolding size_loop chunk_size chunk_body
next_chunk r =
    let (r', got) = size_loop (suc (supply r)) r in
    elim got [
      | line_error e ↦ (r', ended e)
      | no_line ↦ (r', quiet)
      | line text ↦
          let (r'', more) = start_chunk r' (chunk_size text) in
          if more then chunk_body r'' else (r'', ended [])
    ]

-- The whole of what is there; a close is the end.
unfoldable pub until_close : Reader → Reader × Body
unfolding with_bytes
until_close r =
    with_bytes (λ r'. (record r' { buf_pos = r'.buf_pos + length (unread r') }, piece (unread r')))
      (λ r' e. (finish_body r', ended [])) r

abbrev body_in : BodyMode → Reader → Reader × Body
body_in body_none r = (finish_body r, ended [])
body_in body_length r = with_bytes (take_body finish_body) stop r
body_in body_chunked r = if r.chunk_need_size then next_chunk r else chunk_body r
body_in body_until_close r = until_close r

unfoldable pub read_body : Reader → Reader × Body
unfolding with_bytes take_body next_chunk chunk_body until_close
read_body r = if r.body_done then (r, ended []) else body_in r.body_mode r

-- Each round but the last takes a byte.
unfoldable pub full_body_loop : ℕ → Reader → Bytes → Reader × Outcome Bytes
unfolding read_body
full_body_loop zero r out = (r, err [])
full_body_loop (suc f) r out =
    let (r', got) = read_body r in
    elim got [
      | piece text ↦ full_body_loop f r' (out ++ text)
      | quiet ↦ (r', err (codes "timed out reading response body"))
      | ended e ↦ (r', if r'.body_done then ok out else err e)
    ]

unfoldable pub read_full_body : Reader → Reader × Outcome Bytes
unfolding full_body_loop
read_full_body r = full_body_loop (suc (supply r)) r []
