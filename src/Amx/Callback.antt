-- ===== src/Amx/Callback.antt =====
-- `AmxCallback`: src/amxutil.h and src/amxutil.cpp. The log lines are left out, and a public does not
-- load or unload scripts while it runs.
use goradio_samp.Base.{
  ℕ, suc, Bool, List, [], ◌∷◌, ◌++◌, Option, none, some, if◌then◌else◌, Bytes, length,
}
use goradio_samp.Base.Int.{ℤ, pos, negsuc, ltb_ℤ}
use goradio_samp.Clib.{c_str, int_max}
use goradio_samp.Amx.Exports.{Exports, World, Session}

pub data Arg : Type 0 where
  cell_arg : ℤ → Arg
  text_arg : Bytes → Arg

pub record AmxCallback : Type 0 where
  pub name : Bytes
  pub args : List Arg

abbrev pub new_callback : Bytes → AmxCallback
new_callback name = record { name = name; args = [] }

abbrev with_arg : Arg → AmxCallback → AmxCallback
with_arg a cb = record cb { args = cb.args ++ a ∷ [] }

-- `Int`, `Bool` and `Str`.
abbrev pub add_cell : AmxCallback → ℤ → AmxCallback
add_cell cb value = with_arg (cell_arg value) cb

abbrev pub add_flag : AmxCallback → Bool → AmxCallback
add_flag cb value = add_cell cb (if value then pos 1 else pos 0)

abbrev pub add_text : AmxCallback → Bytes → AmxCallback
add_text cb value = with_arg (text_arg value) cb

-- `Int64`: kept in the range of a cell.
unfoldable pub saturate : ℤ → ℤ
saturate value =
    if ltb_ℤ (pos int_max) value
    then pos int_max
    else if ltb_ℤ value (negsuc int_max)
    then negsuc int_max
    else value

unfoldable pub add_int64 : AmxCallback → ℤ → AmxCallback
unfolding saturate
add_int64 cb value = add_cell cb (saturate value)

-- The address that `Release` is given: that of the first allocation, where there was one.
abbrev pub first_of : Option ℤ → ℤ → Option ℤ
first_of none addr = some addr
first_of (some first) addr = some first

-- What the arguments become on the way: the cells to push, or none where an allocation failed.
pub record Allotted (E : Exports) : Type 0 where
  pub server : E.Server
  pub first : Option ℤ
  pub cells : Option (List ℤ)

module _ (E : Exports) where
  abbrev pub done : E.Server → Option ℤ → Option (List ℤ) → Allotted E
  done w first cells = record { server = w; first = first; cells = cells }

  abbrev pub after_allot : E.Server → Option (ℤ × ℕ) → Bytes → Option ℤ → List ℤ → Allotted E
  after_allot w none text first cells = done w first none
  after_allot w (some (addr, phys)) text first cells =
      done (E.set_string phys (c_str text) (suc (length text)) w) (first_of first addr)
        (some (addr ∷ cells))

  -- A string argument, behind which everything is allocated already.
  abbrev pub allot_text : ℕ → Bytes → E.Server → Option ℤ → List ℤ → Allotted E
  allot_text amx text w first cells =
      let (w', o) = E.allot amx (suc (length text)) w in after_allot w' o text first cells

  -- A failure of a later argument ends the loop.
  abbrev pub allot_arg : ℕ → Arg → E.Server → Option ℤ → Option (List ℤ) → Allotted E
  allot_arg amx a w first none = done w first none
  allot_arg amx (cell_arg n) w first (some cells) = done w first (some (n ∷ cells))
  allot_arg amx (text_arg text) w first (some cells) = allot_text amx text w first cells

  -- The loop over the arguments, from the last one to the first.
  unfoldable pub allot_args : ℕ → List Arg → E.Server → Allotted E
  unfolding c_str
  allot_args amx [] w = done w none (some [])
  allot_args amx (a ∷ args) w =
      let later = allot_args amx args w in allot_arg amx a later.server later.first later.cells

  -- The cells, from the last one to the first.
  unfoldable pub push_cells : ℕ → List ℤ → E.Server → E.Server
  push_cells amx [] w = w
  push_cells amx (n ∷ cells) w = E.push amx n (push_cells amx cells w)

  abbrev pub release_first : ℕ → Option ℤ → E.Server → E.Server
  release_first amx none w = w
  release_first amx (some addr) w = E.release amx addr w

  abbrev pub run_public : ℕ → ℤ → List ℤ → Option ℤ → E.Server → Session → E.Server × Session
  run_public amx index cells first w s =
      let (w', s', returned) = E.exec amx index (push_cells amx cells w) s in
      (release_first amx first w', s')

  abbrev pub with_allotted : ℕ → ℤ → Allotted E → Session → E.Server × Session
  with_allotted amx index a s = elim a.cells [
    | none ↦ (release_first amx a.first a.server, s)
    | some cells ↦ run_public amx index cells a.first a.server s
  ]

  -- One round of the loop of `Invoke`.
  unfoldable pub invoke_on : AmxCallback → ℕ → E.Server → Session → E.Server × Session
  unfolding allot_args push_cells c_str
  invoke_on cb amx w s = elim (E.find_public amx (c_str cb.name) w) [
    | none ↦ (w, s)
    | some index ↦ with_allotted amx index (allot_args amx cb.args w) s
  ]

  unfoldable pub invoke_each : AmxCallback → List ℕ → E.Server → Session → E.Server × Session
  unfolding invoke_on
  invoke_each cb [] w s = (w, s)
  invoke_each cb (amx ∷ scripts) w s =
      let (w', s') = invoke_on cb amx w s in invoke_each cb scripts w' s'

  -- `Invoke`
  unfoldable pub invoke : AmxCallback → World E → World E
  unfolding invoke_each
  invoke cb w =
      let (server, session) = invoke_each cb w.scripts w.server w.session in
      record w { server = server; session = session }
