-- ===== src/ServerConfig/Unfound.antt =====
-- A `ReadServerCfg` of src/serverconfig.cpp that finds nothing.
use goradio_samp.Base.{
  ◌≡◌, refl, sym, ap, ◌∙◌, Bool, true, false, List, [], ◌∷◌, Option, none, some, Bytes, arith,
  Bool-cases, inl, inr, ◌⊎◌, has_prefix, codes, if◌then◌else◌,
}
use goradio_samp.Clib.{Platform}
use goradio_samp.Manager.State.{ManagerConfig}
use goradio_samp.ServerConfig.{
  Settings, trim, split_blank, apply_setting, with_key_value, is_comment, apply_line, apply_lines,
  read_server_cfg,
}

apply_setting-found :
    (p : Platform) (key value : Bytes) (st : Settings)
    → (apply_setting p key value st).found_any ≡ st.found_any
unfolding apply_setting
apply_setting-found p key value st = ground arith

-- A line is found, or it changes nothing.
abbrev IsHarmless : Settings → Settings → Type 0
IsHarmless st st' = (st'.found_any ≡ true) ⊎ (st' ≡ st)

with_key_value-IsHarmless :
    (p : Platform) (key value : Bytes) (st : Settings)
    → IsHarmless st (with_key_value p key value st)
with_key_value-IsHarmless p key value st = elim (Bool-cases (has_prefix (codes "goradio_") key)) [
  | inl e ↦ inl (rw (e) (apply_setting-found p key (trim value) (record st { found_any = true })))
  | inr e ↦ inr (rw (e) refl)
]

apply_line-IsHarmless :
    (p : Platform) (text : Bytes) (st : Settings) → IsHarmless st (apply_line p text st)
unfolding apply_line
apply_line-IsHarmless p text st = tested (is_comment (trim text)) (split_blank (trim text))
  where
    tested :
        (b : Bool) (o : Option (Bytes × Bytes))
        → IsHarmless st (
            if b then st else elim o as (λ x. Settings) [
              | none ↦ st
              | some (key, value) ↦ with_key_value p key value st
            ])
    tested true o = inr refl
    tested false none = inr refl
    tested false (some (key, value)) = with_key_value-IsHarmless p key value st

harmless-unfound : (st st' : Settings) → IsHarmless st st' → st'.found_any ≡ false → st' ≡ st
harmless-unfound st st' (inl found) h = ground (arith, found, h)
harmless-unfound st st' (inr same) h = same

apply_lines-unfound :
    (p : Platform) (texts : List Bytes) (st : Settings)
    → (apply_lines p texts st).found_any ≡ false
    → apply_lines p texts st ≡ st
unfolding apply_lines
apply_lines-unfound p [] st h = refl
apply_lines-unfound p (text ∷ rest) st h =
    let same = apply_lines-unfound p rest (apply_line p text st) h in
    same
    ∙ harmless-unfound st (apply_line p text st) (apply_line-IsHarmless p text st)
        (sym (ap (λ x. x.found_any) same) ∙ h)

-- Where `ReadServerCfg` reports that it found nothing, it left the settings and the debug flag as
-- they were, whether the file could not be opened or has no line with a key of the plugin.
pub read_server_cfg-unfound :
    (p : Platform) (file : Option (List Bytes)) (config : ManagerConfig) (debug : Bool)
    → (read_server_cfg p file config debug).found_any ≡ false
    → read_server_cfg p file config debug
      ≡ record { config = config; debug = debug; found_any = false }
unfolding read_server_cfg
read_server_cfg-unfound p none config debug h = refl
read_server_cfg-unfound p (some texts) config debug h =
    apply_lines-unfound p texts (record { config = config; debug = debug; found_any = false }) h
