-- ===== src/Http/Bodies.antt =====
-- One round of `ReadBody` of src/http.cpp on a body with a Content-Length.
use goradio_samp.Base.{
  ℕ, zero, suc, ◌+◌, ◌-◌, ◌≤◌, ◌≡◌, refl, sym, ◌∙◌, ap, true, false, List, [], ◌∷◌, ◌++◌, Bytes,
  drop-add, arith, Bool-cases, inl, inr, length, drop, take, ◌==◌, length-append, length-drop,
  length-take, is_empty, if◌then◌else◌, ltb,
}
use mathlib.Core.Bool.{true≢false, false≢true}
use native.Mathlib.Numerals.{unary_clauses}
use goradio_samp.Http.Wire.{Recv, delivered, bytes}
use goradio_samp.Http.Reader.{
  Reader, unread, body_length, take_body, finish_body, read_body, piece, fill, with_bytes, reclaim,
}
use goradio_samp.Http.Lines.{
  Flows, coming, Flows-cases, arrived, coming-arrived, arrived-InBuffer, unread-arrived,
  drop-inside,
}

pub take-split :
    (n : ℕ) (u d : Bytes)
    → take n u ++ take (n - length (take n u)) (drop (length (take n u)) (u ++ d)) ≡ take n (u ++ d)
take-split zero u d = refl
take-split (suc n) [] d = simp unary_clauses refl
take-split (suc n) (x ∷ u) d = simp unary_clauses (ap (◌∷◌ x) (take-split n u d))

-- A body of which `n` bytes are left, all of which arrive.
pub record Sized (r : Reader) (n : ℕ) : Type 0 where
  pub mode : r.body_mode ≡ body_length
  pub left : r.body_remaining ≡ n
  pub done : r.body_done ≡ (n == 0)
  pub flows : Flows r.recvs
  pub inside : r.buf_pos ≤ length r.buf
  pub enough : n ≤ length (coming r)

-- What one round takes off the body.
abbrev pub cut : Reader → ℕ → ℕ
cut u n = length (take n (unread u))

pub cut_le : (u : Reader) (n : ℕ) → cut u n ≤ n
cut_le u n = omega (arith, length-take n (unread u))

-- The reader after a round that has the bytes.
abbrev pub rest_of : Reader → ℕ → Reader
rest_of u n =
    let u' = record u { buf_pos = u.buf_pos + cut u n; body_remaining = n - cut u n } in
    if n - cut u n == 0 then finish_body u' else u'

pub coming-rest_of :
    (u : Reader) (n : ℕ)
    → u.buf_pos ≤ length u.buf
    → coming (rest_of u n) ≡ drop (cut u n) (coming u)
coming-rest_of u n inside = elim (Bool-cases (n - cut u n == 0)) [
  | inl e ↦ rw e past
  | inr e ↦ rw e past
]
  where
    past : drop (u.buf_pos + cut u n) u.buf ++ delivered u.recvs ≡ drop (cut u n) (coming u)
    past =
        ap (λ t. t ++ delivered u.recvs) (sym (drop-add u.buf_pos (cut u n) u.buf))
        ∙ sym (
            drop-inside (cut u n) (unread u) (delivered u.recvs)
              (omega (arith, length-take n (unread u))))

pub take_body-piece :
    (u : Reader) (n : ℕ)
    → Sized u n
    → take_body finish_body u ≡ (rest_of u n, piece (take n (unread u)))
unfolding take_body
take_body-piece u n s = rw (s.left) refl

pub rest_of-Sized : (u : Reader) (n : ℕ) → Sized u n → Sized (rest_of u n) (n - cut u n)
rest_of-Sized u n s = record {
  mode = elim (Bool-cases (n - cut u n == 0)) [ inl e ↦ rw e s.mode | inr e ↦ rw e s.mode ];
  left = elim (Bool-cases (n - cut u n == 0)) [ inl e ↦ rw e refl | inr e ↦ rw e refl ];
  done = elim (Bool-cases (n - cut u n == 0)) [
    | inl e ↦ rw e refl
    | inr e ↦ rw e (s.done ∙ ground (arith, e))
  ];
  flows = elim (Bool-cases (n - cut u n == 0)) [ inl e ↦ rw e s.flows | inr e ↦ rw e s.flows ];
  inside = elim (Bool-cases (n - cut u n == 0)) [
    | inl e ↦ rw e within_buf
    | inr e ↦ rw e within_buf
  ];
  enough =
      rw (coming-rest_of u n s.inside)
        (omega (arith, length-drop (cut u n) (coming u), cut_le u n, s.enough));
}
  where
    within_buf : u.buf_pos + cut u n ≤ length u.buf
    within_buf = omega (arith, length-take n (unread u), length-drop u.buf_pos u.buf, s.inside)

-- The reader that a round takes from: it has a byte at least.
pub record Ready (r : Reader) (n : ℕ) : Type 0 where
  pub from : Reader
  pub reads : read_body r ≡ take_body finish_body from
  pub sized : Sized from n
  pub same : coming from ≡ coming r
  pub some_byte : 1 ≤ length (unread from)

has_byte : (t : Bytes) → is_empty t ≡ false → 1 ≤ length t
has_byte [] h = absurd (true≢false h)
has_byte (c ∷ t) h = omega arith

no_byte : (t : Bytes) → is_empty t ≡ true → t ≡ []
no_byte [] h = refl
no_byte (c ∷ t) h = absurd (false≢true h)

going : (r : Reader) (n : ℕ) → Sized r (suc n) → r.body_done ≡ false
going r n s = s.done ∙ ground arith

read_body-there :
    (r : Reader) (n : ℕ)
    → Sized r (suc n)
    → is_empty (unread r) ≡ false
    → read_body r ≡ take_body finish_body r
unfolding read_body with_bytes
read_body-there r n s e = simp (going r n s, s.mode, e) refl

read_body-fill :
    (r : Reader) (n c : ℕ) (t : Bytes) (rs : List Recv)
    → Sized r (suc n)
    → is_empty (unread r) ≡ true
    → r.recvs ≡ bytes c t ∷ rs
    → read_body r ≡ take_body finish_body (arrived r c t rs)
unfolding read_body with_bytes fill
read_body-fill r n c t rs s e h = simp (going r n s, s.mode, e, h) refl

arrived-Sized :
    (r : Reader) (n c : ℕ) (t : Bytes) (rs : List Recv)
    → Sized r n
    → r.recvs ≡ bytes c t ∷ rs
    → Flows rs
    → Sized (arrived r c t rs) n
unfolding reclaim
arrived-Sized r n c t rs s h flows = elim (Bool-cases (ltb 8192 r.buf_pos)) [
  | inl e ↦ made (rw e s.mode) (rw e s.left) (rw e s.done)
  | inr e ↦ made (rw e s.mode) (rw e s.left) (rw e s.done)
]
  where
    made :
        (reclaim r).body_mode ≡ body_length
        → (reclaim r).body_remaining ≡ n
        → (reclaim r).body_done ≡ (n == 0)
        → Sized (arrived r c t rs) n
    made mode left done = record {
      mode = mode;
      left = left;
      done = done;
      flows = flows;
      inside = arrived-InBuffer r c t rs s.inside;
      enough = rw (coming-arrived r c t rs s.inside h) s.enough;
    }

pub read_body-Ready : (r : Reader) (n : ℕ) → Sized r (suc n) → Ready r (suc n)
read_body-Ready r n s = elim (Bool-cases (is_empty (unread r))) [
  | inr e ↦ record {
    from = r;
    reads = read_body-there r n s e;
    sized = s;
    same = refl;
    some_byte = has_byte (unread r) e;
  }
  | inl e ↦ elim (Flows-cases r.recvs s.flows) [
    | inl nothing ↦ absurd (omega (arith, s.enough, nothing_comes nothing e))
    | inr (c, t, rs, h, flows) ↦ record {
      from = arrived r c t rs;
      reads = read_body-fill r n c t rs s e h;
      sized = arrived-Sized r (suc n) c t rs s h flows;
      same = coming-arrived r c t rs s.inside h;
      some_byte =
          rw (unread-arrived r c t rs s.inside) (omega (arith, length-append (unread r) (c ∷ t)));
    }
  ]
]
  where
    nothing_comes : r.recvs ≡ [] → is_empty (unread r) ≡ true → length (coming r) ≡ 0
    nothing_comes h e = rw (no_byte (unread r) e, h) refl
