-- ===== src/Base/Names.antt =====
-- Names as native texts, as keys of a dict.
use Prim.Native.String.{String}
use text.Mathlib.Text.{◌==◌ as text_eq}
use text.Mathlib.TextEquality.{eq_iff}
use vaidcord.Base.Dict.{Key}

instance abbrev pub name_key : Key String
name_key = record { same = text_eq; same_iff = eq_iff }
