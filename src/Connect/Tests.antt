-- ===== src/Connect/Tests.antt =====
-- The framing at concrete envelopes.
use goradio_samp.Base.{◌≡◌, refl, ◌∷◌, ◌++◌, codes, none, some, ◌^◌, ◌-◌, true, false, arith}
use goradio_samp.Base.Int.{pos}
use goradio_samp.Clib.{Platform}
use goradio_samp.Connect.Envelope.{envelope, Pending, waiting, take_frame}
use goradio_samp.Connect.Framing.{take_frame-envelope, take_frame-prefix}

abbrev narrow_build : Platform
narrow_build = record {
  atoi_overflow = λ s. pos 7;
  strtod_nonzero = λ s. true;
  ulong_max = 2 ^ 32 - 1;
  tls_supported = false;
}

abbrev two_waiting : Pending
two_waiting = record { text = 9 ∷ (envelope (codes "{}") ++ codes "xy"); position = 1 }

two_waiting_text : waiting two_waiting ≡ envelope (codes "{}") ++ codes "xy"
unfolding envelope
two_waiting_text = refl

take_frame-envelope_example :
    (q : Pending) × (take_frame narrow_build two_waiting ≡ some (0, codes "{}", q))
    × (waiting q ≡ codes "xy")
take_frame-envelope_example =
    take_frame-envelope narrow_build two_waiting (codes "{}") (codes "xy") two_waiting_text
      (omega arith) (omega arith)

abbrev half_waiting : Pending
half_waiting = record { text = 0 ∷ 0 ∷ 0 ∷ 0 ∷ 2 ∷ codes "{"; position = 0 }

half_waiting_text : envelope (codes "{}") ≡ waiting half_waiting ++ codes "}"
unfolding envelope
half_waiting_text = refl

take_frame-prefix_example : take_frame narrow_build half_waiting ≡ none
take_frame-prefix_example =
    take_frame-prefix narrow_build half_waiting (codes "{}") (codes "}") half_waiting_text
      (omega arith) (omega arith) (omega arith)
