-- ===== src/Http/FullBody.antt =====
-- `ReadFullBody` of src/http.cpp on a body with a Content-Length, however the bytes arrive.
use goradio_samp.Base.{
  ℕ, zero, suc, ◌-◌, ◌≤◌, ◌≡◌, refl, sym, ◌∙◌, ap, true, [], ◌++◌, Bytes, drop-add, arith, length,
  drop, take, ◌==◌, append_assoc, length-append, length-take, append-nil,
}
use goradio_samp.Http.Url.{ok}
use goradio_samp.Http.Wire.{delivered}
use goradio_samp.Http.Reader.{
  Reader, unread, body_length, read_body, full_body_loop, read_full_body, piece, supply,
}
use goradio_samp.Http.Lines.{Flows, coming}
use goradio_samp.Http.Bodies.{
  Sized, Ready, cut, rest_of, take-split, cut_le, coming-rest_of, take_body-piece, rest_of-Sized,
  read_body-Ready,
}

full_body_loop-end :
    (f : ℕ) (r : Reader) (out : Bytes)
    → r.body_done ≡ true
    → full_body_loop (suc f) r out ≡ (r, ok out)
unfolding full_body_loop read_body
full_body_loop-end f r out h = ground (arith, h)

full_body_loop-piece :
    (f : ℕ) (r v : Reader) (out text : Bytes)
    → read_body r ≡ (v, piece text)
    → full_body_loop (suc f) r out ≡ full_body_loop f v (out ++ text)
unfolding full_body_loop
full_body_loop-piece f r v out text h = ground (arith, h)

-- One round, and what is left of the body.
round-parts :
    (u : Reader) (n : ℕ)
    → u.buf_pos ≤ length u.buf
    → (take n (unread u) ++ take (n - cut u n) (coming (rest_of u n)) ≡ take n (coming u))
      × (drop (n - cut u n) (coming (rest_of u n)) ≡ drop n (coming u))
round-parts u n inside = (
  rw (coming-rest_of u n inside) (take-split n (unread u) (delivered u.recvs)),
  rw (coming-rest_of u n inside) (
      drop-add (cut u n) (n - cut u n) (coming u)
      ∙ ap (λ k. drop k (coming u)) (omega (arith, cut_le u n))),
)

full_body_loop-Sized :
    (f n : ℕ) (r : Reader) (out : Bytes)
    → Sized r n
    → n ≤ f
    → ((full_body_loop (suc f) r out).1 ≡ ok (out ++ take n (coming r)))
      × (coming (full_body_loop (suc f) r out).0 ≡ drop n (coming r))
full_body_loop-Sized f zero r out s le =
    rw (full_body_loop-end f r out (s.done ∙ ground arith)) (ap ok (sym (append-nil out)), refl)
full_body_loop-Sized zero (suc n) r out s le = absurd (omega (arith, le))
full_body_loop-Sized (suc f) (suc n) r out s le = whole (
    full_body_loop-Sized f (suc n - cut u (suc n)) (rest_of u (suc n))
      (out ++ take (suc n) (unread u)) (rest_of-Sized u (suc n) q.sized)
      (omega (arith, le, length-take (suc n) (unread u), q.some_byte)))
  where
    q : Ready r (suc n)
    q = read_body-Ready r n s

    u : Reader
    u = q.from

    parts :
        (take (suc n) (unread u) ++ take (suc n - cut u (suc n)) (coming (rest_of u (suc n)))
          ≡ take (suc n) (coming u))
        × (drop (suc n - cut u (suc n)) (coming (rest_of u (suc n))) ≡ drop (suc n) (coming u))
    parts = round-parts u (suc n) q.sized.inside

    whole :
        ((full_body_loop (suc f) (rest_of u (suc n)) (out ++ take (suc n) (unread u))).1
            ≡ ok (
                (out ++ take (suc n) (unread u))
                ++ take (suc n - cut u (suc n)) (coming (rest_of u (suc n)))))
          × (coming (full_body_loop (suc f) (rest_of u (suc n)) (out ++ take (suc n) (unread u))).0
              ≡ drop (suc n - cut u (suc n)) (coming (rest_of u (suc n))))
        → ((full_body_loop (suc (suc f)) r out).1 ≡ ok (out ++ take (suc n) (coming r)))
          × (coming (full_body_loop (suc (suc f)) r out).0 ≡ drop (suc n) (coming r))
    whole later =
        rw
          (full_body_loop-piece (suc f) r (rest_of u (suc n)) out (take (suc n) (unread u))
            (q.reads ∙ take_body-piece u (suc n) q.sized))
          (
            later.0
                ∙ ap ok (
                    append_assoc out (take (suc n) (unread u))
                      (take (suc n - cut u (suc n)) (coming (rest_of u (suc n))))
                    ∙ ap (λ t. out ++ t) (parts.0 ∙ ap (take (suc n)) q.same)),
            later.1 ∙ parts.1 ∙ ap (drop (suc n)) q.same,
          )

-- `ReadFullBody` of a body with a Content-Length ends with that body: however its bytes are cut into
-- receives, and however many of them are in the buffer already, it hands out the next `n` bytes and
-- leaves those behind them; for a reader whose position is inside its buffer and to which `n` bytes
-- come, where no receive times out or fails.
pub read_full_body-length :
    (r : Reader) (n : ℕ)
    → r.body_mode ≡ body_length
    → r.body_remaining ≡ n
    → r.body_done ≡ (n == 0)
    → r.buf_pos ≤ length r.buf
    → Flows r.recvs
    → n ≤ length (coming r)
    → ((read_full_body r).1 ≡ ok (take n (coming r)))
      × (coming (read_full_body r).0 ≡ drop n (coming r))
unfolding read_full_body
read_full_body-length r n mode left done inside flows enough =
    full_body_loop-Sized (supply r) n r []
      (record {
        mode = mode;
        left = left;
        done = done;
        flows = flows;
        inside = inside;
        enough = enough;
      })
      (omega (arith, enough, length-append (unread r) (delivered r.recvs)))
