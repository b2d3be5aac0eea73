-- ===== src/ServerConfig.antt =====
-- `Trim` and `ReadServerCfg`: src/serverconfig.cpp, over the lines that `getline` reads of the file.
pub mod Unfound
mod Tests
use goradio_samp.Base.{
  ℕ, ◌*◌, ◌-◌, suc, Bool, true, false, not, ◌||◌, List, [], ◌∷◌, Option, none, some, ◌==◌,
  if◌then◌else◌, Bytes, codes, equal, has_prefix, strip_start, strip_end,
}
use goradio_samp.Base.Int.{ℤ, pos, negsuc, eq_ℤ}
use goradio_samp.Clib.{Platform, atoi}
use goradio_samp.Manager.State.{ManagerConfig}

abbrev is_trimmed : ℕ → Bool
is_trimmed c = c == b' ' || c == 9 || c == 13

-- `Trim`
unfoldable pub trim : Bytes → Bytes
unfolding strip_start strip_end
trim text = strip_end is_trimmed (strip_start is_trimmed text)

-- `find_first_of(" \t")`: what stands before it, and what behind it.
unfoldable pub split_blank : Bytes → Option (Bytes × Bytes)
split_blank [] = none
split_blank (c ∷ s) =
    if c == b' ' || c == 9
    then some ([], s)
    else elim (split_blank s) [ none ↦ none | some (key, value) ↦ some (c ∷ key, value) ]

-- What the function writes to: the settings, the debug flag, and `found_any`.
pub record Settings : Type 0 where
  pub config : ManagerConfig
  pub debug : Bool
  pub found_any : Bool

-- Seconds in milliseconds; the product of `int`s that stays in range.
abbrev pub thousandfold : ℤ → ℤ
thousandfold (pos n) = pos (n * 1000)
thousandfold (negsuc n) = negsuc (suc n * 1000 - 1)

abbrev on_config : Settings → ManagerConfig → Settings
on_config st config = record st { config = config }

-- A setting that the plugin may know; `found_any` was set before.
unfoldable pub apply_setting : Platform → Bytes → Bytes → Settings → Settings
unfolding atoi
apply_setting p key value st =
    if equal key (codes "goradio_url")
    then on_config st (record (st.config) { server_url = value })
    else if equal key (codes "goradio_token")
    then on_config st (record (st.config) { token = value })
    else if equal key (codes "goradio_poll_interval")
    then on_config st (record (st.config) { poll_interval_ms = thousandfold (atoi p value) })
    else if equal key (codes "goradio_workers")
    then on_config st (record (st.config) { workers = atoi p value })
    else if equal key (codes "goradio_timeout")
    then on_config st (record (st.config) { timeout_ms = atoi p value })
    else if equal key (codes "goradio_debug")
    then record st { debug = not (eq_ℤ (atoi p value) (pos 0)) }
    else st

abbrev pub with_key_value : Platform → Bytes → Bytes → Settings → Settings
with_key_value p key value st =
    if has_prefix (codes "goradio_") key
    then apply_setting p key (trim value) (record st { found_any = true })
    else st

abbrev is_comment : Bytes → Bool
is_comment [] = true
is_comment (c ∷ s) = c == b'#' || c == b';'

-- One round of the loop.
unfoldable pub apply_line : Platform → Bytes → Settings → Settings
unfolding trim split_blank apply_setting
apply_line p text st = if is_comment (trim text) then st else elim (split_blank (trim text)) [
  | none ↦ st
  | some (key, value) ↦ with_key_value p key value st
]

unfoldable pub apply_lines : Platform → List Bytes → Settings → Settings
unfolding apply_line
apply_lines p [] st = st
apply_lines p (text ∷ rest) st = apply_lines p rest (apply_line p text st)

-- `ReadServerCfg`; none where the file cannot be opened.
unfoldable pub read_server_cfg : Platform → Option (List Bytes) → ManagerConfig → Bool → Settings
unfolding apply_lines
read_server_cfg p none config debug = record { config = config; debug = debug; found_any = false }
read_server_cfg p (some lines) config debug =
    apply_lines p lines (record { config = config; debug = debug; found_any = false })
