-- ===== src/Http/Lines.antt =====
-- `ReadLine` of src/http.cpp reads the same lines however the bytes arrive.
use goradio_samp.Base.{
  ℕ, zero, suc, ◌+◌, ◌≤◌, ◌<◌, ◌≡◌, refl, sym, ◌∙◌, ap, List, [], ◌∷◌, ◌++◌, none, some, Bytes,
  drop-add, arith, ◌⊎◌, Bool-cases, Option-cases, inl, inr, length, drop, ltb, split_first,
  append_assoc, append-nil, length-append,
}
use goradio_samp.Http.Wire.{Recv, bytes, timed_out, broken, delivered}
use goradio_samp.Http.Reader.{Reader, unread, reclaim, fill, line, strip_cr, line_loop, read_line}

-- Everything arrives: no receive times out or fails.
abbrev pub Flows : List Recv → Type 0
Flows [] = Unit
Flows (bytes c s ∷ rs) = Flows rs
Flows (timed_out ∷ rs) = ⊥
Flows (broken e ∷ rs) = ⊥

-- What is still to be consumed.
abbrev pub coming : Reader → Bytes
coming r = unread r ++ delivered r.recvs

pub unread-reclaim : (r : Reader) → unread (reclaim r) ≡ unread r
unfolding reclaim
unread-reclaim r = elim (Bool-cases (ltb 8192 r.buf_pos)) [
  | inl e ↦ rw (e) refl
  | inr e ↦ rw (e) refl
]

pub split_first-more :
    (c : ℕ) (s t a b : Bytes)
    → split_first c s ≡ some (a, b)
    → split_first c (s ++ t) ≡ some (a, b ++ t)
unfolding split_first
split_first-more c [] t a b h = ground (arith, h)
split_first-more c (x ∷ s) t a b h = elim (Option-cases (split_first c s)) [
  | inl e ↦ ground (arith, e, h)
  | inr ((a', b'), e) ↦ ground (arith, e, h, split_first-more c s t a' b' e)
]

split_first-parts : (c : ℕ) (s a b : Bytes) → split_first c s ≡ some (a, b) → s ≡ a ++ c ∷ b
unfolding split_first
split_first-parts c [] a b h = ground (arith, h)
split_first-parts c (x ∷ s) a b h = elim (Option-cases (split_first c s)) [
  | inl e ↦ ground (arith, e, h)
  | inr ((a', b'), e) ↦ ground (arith, e, h, split_first-parts c s a' b' e)
]

drop-suc-length : (c : ℕ) (a b : Bytes) → drop (suc (length a)) (a ++ c ∷ b) ≡ b
drop-suc-length c [] b = refl
drop-suc-length c (x ∷ a) b = drop-suc-length c a b

pub drop-inside : (n : ℕ) (xs ys : Bytes) → n ≤ length xs → drop n (xs ++ ys) ≡ drop n xs ++ ys
drop-inside zero xs ys h = refl
drop-inside (suc n) [] ys h = ground (arith, h)
drop-inside (suc n) (x ∷ xs) ys h = drop-inside n xs ys (omega (arith, h))

line_loop-found :
    (f : ℕ) (r : Reader) (a b : Bytes)
    → split_first 10 (unread r) ≡ some (a, b)
    → line_loop (suc f) r ≡ (record r { buf_pos = r.buf_pos + suc (length a) }, line (strip_cr a))
unfolding line_loop
line_loop-found f r a b e = ground (arith, e)

unread-past :
    (r : Reader) (a b : Bytes)
    → split_first 10 (unread r) ≡ some (a, b)
    → unread (record r { buf_pos = r.buf_pos + suc (length a) }) ≡ b
unread-past r a b e =
    sym (drop-add r.buf_pos (suc (length a)) r.buf)
    ∙ ap (drop (suc (length a))) (split_first-parts 10 (unread r) a b e)
    ∙ drop-suc-length 10 a b

-- The reader after a receive of bytes.
abbrev pub arrived : Reader → ℕ → Bytes → List Recv → Reader
arrived r c s rs = record (reclaim r) { buf = (reclaim r).buf ++ c ∷ s; recvs = rs }

line_loop-fill :
    (f : ℕ) (r : Reader) (c : ℕ) (s : Bytes) (rs : List Recv)
    → r.recvs ≡ bytes c s ∷ rs
    → split_first 10 (unread r) ≡ none
    → line_loop (suc f) r ≡ line_loop f (arrived r c s rs)
unfolding line_loop fill
line_loop-fill f r c s rs h e = ground (arith, h, e)

reclaim-InBuffer :
    (r : Reader) → r.buf_pos ≤ length r.buf → (reclaim r).buf_pos ≤ length (reclaim r).buf
unfolding reclaim
reclaim-InBuffer r h = elim (Bool-cases (ltb 8192 r.buf_pos)) [
  | inl e ↦ rw (e) (omega arith)
  | inr e ↦ rw (e) h
]

pub unread-arrived :
    (r : Reader) (c : ℕ) (s : Bytes) (rs : List Recv)
    → r.buf_pos ≤ length r.buf
    → unread (arrived r c s rs) ≡ unread r ++ c ∷ s
unread-arrived r c s rs h =
    drop-inside (reclaim r).buf_pos (reclaim r).buf (c ∷ s) (reclaim-InBuffer r h)
    ∙ ap (λ t. t ++ c ∷ s) (unread-reclaim r)

pub Flows-cases :
    (rs : List Recv)
    → Flows rs
    → (rs ≡ []) ⊎ ((c : ℕ) × (s : Bytes) × (rs' : List Recv) × (rs ≡ bytes c s ∷ rs') × Flows rs')
Flows-cases [] h = inl refl
Flows-cases (bytes c s ∷ rs) h = inr (c, s, rs, refl, h)
Flows-cases (timed_out ∷ rs) h = absurd h
Flows-cases (broken e ∷ rs) h = absurd h

pub coming-arrived :
    (r : Reader) (c : ℕ) (s : Bytes) (rs : List Recv)
    → r.buf_pos ≤ length r.buf
    → r.recvs ≡ bytes c s ∷ rs
    → coming (arrived r c s rs) ≡ coming r
coming-arrived r c s rs h e =
    rw (unread-arrived r c s rs h, e) (append_assoc (unread r) (c ∷ s) (delivered rs))

pub arrived-InBuffer :
    (r : Reader) (c : ℕ) (s : Bytes) (rs : List Recv)
    → r.buf_pos ≤ length r.buf
    → (arrived r c s rs).buf_pos ≤ length (arrived r c s rs).buf
arrived-InBuffer r c s rs h =
    omega (arith, reclaim-InBuffer r h, length-append (reclaim r).buf (c ∷ s))

line_loop-Flows :
    (f : ℕ) (r : Reader) (text rest : Bytes)
    → length r.recvs < f
    → r.buf_pos ≤ length r.buf
    → Flows r.recvs
    → split_first 10 (coming r) ≡ some (text, rest)
    → ((line_loop f r).1 ≡ line (strip_cr text)) × (coming (line_loop f r).0 ≡ rest)
line_loop-Flows zero r text rest enough inside flows h = ground (arith, enough)
line_loop-Flows (suc f) r text rest enough inside flows h =
    elim (Option-cases (split_first 10 (unread r))) [
      | inr ((a, b), e) ↦
          let seen = split_first-more 10 (unread r) (delivered r.recvs) a b e in
          rw (line_loop-found f r a b e) (
            ground (arith, h, seen),
            ap (λ t. t ++ delivered r.recvs) (unread-past r a b e) ∙ ground (arith, h, seen),
          )
      | inl e ↦ elim (Flows-cases r.recvs flows) [
        | inl none_left ↦ ground (arith, e, h, none_left, append-nil (unread r))
        | inr (c, s, rs, g, flows') ↦ rw (line_loop-fill f r c s rs g e) (
            line_loop-Flows f (arrived r c s rs) text rest (ground (arith, enough, g))
              (arrived-InBuffer r c s rs inside) flows'
              (ap (split_first 10) (coming-arrived r c s rs inside g) ∙ h))
      ]
    ]

-- However the bytes that arrive are cut into receives, and however much of them is in the buffer
-- already, `ReadLine` reads the line up to the first line feed, without a carriage return in front of
-- it, and what is left to be consumed are the bytes behind the line feed; for a reader whose position
-- is inside its buffer, where no receive times out or fails and a line feed is among the bytes.
pub read_line-Flows :
    (r : Reader) (text rest : Bytes)
    → r.buf_pos ≤ length r.buf
    → Flows r.recvs
    → split_first 10 (coming r) ≡ some (text, rest)
    → ((read_line r).1 ≡ line (strip_cr text)) × (coming (read_line r).0 ≡ rest)
unfolding read_line
read_line-Flows r text rest inside flows h =
    line_loop-Flows (suc (length r.recvs)) r text rest (omega arith) inside flows h
