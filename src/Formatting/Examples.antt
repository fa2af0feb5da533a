-- ===== src/Formatting/Examples.antt =====
-- Formatting at concrete texts.
use vaidcord.Base.{◌≡◌, refl, true, false, [], ◌∷◌}
use vaidcord.Base.Decimal.{decimal}
use vaidcord.Base.Texts.{Text}
use vaidcord.Formatting.{
  bold_style, italic_style, combine_styles, str, user_mention_from_obj, replace_fence, quote,
  escape,
}
use vaidcord.Formatting.Escapes.{escaped, escaped_char, shown, escape-escaped}

-- "a*_"
abbrev starred : Text
starred = 97 ∷ 42 ∷ 95 ∷ []

styles :
    combine_styles (97 ∷ []) (bold_style ∷ italic_style ∷ [])
    ≡ 42 ∷ 42 ∷ 42 ∷ 97 ∷ 42 ∷ 42 ∷ 42 ∷ []
unfolding combine_styles
styles = refl

mention_text : str (user_mention_from_obj 42) ≡ 60 ∷ 64 ∷ 52 ∷ 50 ∷ 62 ∷ []
unfolding str decimal
mention_text = refl

quoted : quote (97 ∷ 10 ∷ 98 ∷ []) true ≡ 62 ∷ 62 ∷ 62 ∷ 32 ∷ 97 ∷ 10 ∷ 62 ∷ 32 ∷ 98 ∷ []
unfolding quote
quoted = refl

-- Of five backticks the last three stand together behind the escaping.
fence_left :
    replace_fence (96 ∷ 96 ∷ 96 ∷ 96 ∷ 96 ∷ []) ≡ 92 ∷ 96 ∷ 92 ∷ 96 ∷ 92 ∷ 96 ∷ 96 ∷ 96 ∷ []
unfolding replace_fence
fence_left = refl

-- Of an escaped star in code a backslash and the star are left over.
star_left : shown false (escape (42 ∷ []) true) ≡ 92 ∷ 42 ∷ []
unfolding shown escape
star_left = refl

escape-escaped_example : escape starred true ≡ 97 ∷ 92 ∷ 92 ∷ 42 ∷ 92 ∷ 92 ∷ 95 ∷ []
unfolding escaped escaped_char
escape-escaped_example = escape-escaped starred true
