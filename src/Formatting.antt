-- ===== src/Formatting.antt =====
-- vaidcord-py/src/vaidcord/formatting/__init__.py. Texts are lists of character codes; of `link` the
-- pattern for URLs is a parameter.
pub mod Escapes
mod Examples
use vaidcord.Base.{
  ℕ, Bool, true, false, ◌&&◌, Option, none, some, List, [], ◌∷◌, ◌++◌, foldl, ◌==◌, if◌then◌else◌,
}
use vaidcord.Base.Decimal.{decimal}
use vaidcord.Base.Texts.{Text}
use vaidcord.Base.Result.{Result, ok, err, value_error}

pub data TextStyle : Type 0 where
  bold_style italic_style underline_style strikethrough_style spoiler_style : TextStyle

abbrev pub mark_of : TextStyle → Text
mark_of bold_style = 42 ∷ 42 ∷ []
mark_of italic_style = 42 ∷ []
mark_of underline_style = 95 ∷ 95 ∷ []
mark_of strikethrough_style = 126 ∷ 126 ∷ []
mark_of spoiler_style = 124 ∷ 124 ∷ []

-- `f"{mark}{text}{mark}"`
abbrev pub wrap : Text → Text → Text
wrap mark text = mark ++ (text ++ mark)

unfoldable pub bold : Text → Text
bold text = wrap (42 ∷ 42 ∷ []) text

unfoldable pub italic : Text → Text
italic text = wrap (42 ∷ []) text

unfoldable pub underline : Text → Text
underline text = wrap (95 ∷ 95 ∷ []) text

unfoldable pub strikethrough : Text → Text
strikethrough text = wrap (126 ∷ 126 ∷ []) text

unfoldable pub spoiler : Text → Text
spoiler text = wrap (124 ∷ 124 ∷ []) text

-- `combine_styles`: each style goes around those before it.
unfoldable pub combine_styles : Text → List TextStyle → Text
combine_styles text styles = foldl (λ result style. wrap (mark_of style) result) text styles

pub data MentionType : Type 0 where
  user role channel other_type : MentionType

pub record Mention : Type 0 where
  pub id : ℕ
  pub kind : MentionType

abbrev pub mention_mark : MentionType → Text
mention_mark user = 60 ∷ 64 ∷ []
mention_mark role = 60 ∷ 64 ∷ 38 ∷ []
mention_mark channel = 60 ∷ 35 ∷ []
mention_mark other_type = 60 ∷ 64 ∷ []

-- `Mention.__str__`
unfoldable pub str : Mention → Text
str m = mention_mark m.kind ++ (decimal m.id ++ 62 ∷ [])

unfoldable pub mention_user : ℕ → Text
mention_user id = 60 ∷ 64 ∷ (decimal id ++ 62 ∷ [])

unfoldable pub mention_role : ℕ → Text
mention_role id = 60 ∷ 64 ∷ 38 ∷ (decimal id ++ 62 ∷ [])

unfoldable pub mention_channel : ℕ → Text
mention_channel id = 60 ∷ 35 ∷ (decimal id ++ 62 ∷ [])

-- `user_mention_from_obj`, `role_mention_from_obj` and `channel_mention_from_obj`
abbrev pub user_mention_from_obj : ℕ → Mention
user_mention_from_obj id = record { id = id; kind = user }

abbrev pub role_mention_from_obj : ℕ → Mention
role_mention_from_obj id = record { id = id; kind = role }

abbrev pub channel_mention_from_obj : ℕ → Mention
channel_mention_from_obj id = record { id = id; kind = channel }

-- `<t:…:…>` of the seconds of `dt`, or of `timestamp`, or of the clock.
abbrev pub seconds_of : Option ℕ → Option ℕ → ℕ → ℕ
seconds_of (some dt) timestamp now = dt
seconds_of none (some timestamp) now = timestamp
seconds_of none none now = now

unfoldable pub timestamp_text : Option ℕ → Option ℕ → ℕ → ℕ → Text
timestamp_text dt timestamp now style =
    60 ∷ 116 ∷ 58 ∷ (decimal (seconds_of dt timestamp now) ++ 58 ∷ style ∷ 62 ∷ [])

-- `text.replace(char, f"\\{char}")`
unfoldable pub replace : ℕ → Text → Text
replace char [] = []
replace char (c ∷ text) =
    let rest = replace char text in if c == char then 92 ∷ c ∷ rest else c ∷ rest

unfoldable pub inline_code : Text → Text
unfolding replace
inline_code text = 96 ∷ (replace 96 text ++ 96 ∷ [])

-- `code.replace("```", "\\`\\`\\`")`, from the left, without overlaps.
unfoldable pub replace_fence : Text → Text
replace_fence [] = []
replace_fence (a ∷ []) = a ∷ []
replace_fence (a ∷ b ∷ []) = a ∷ b ∷ []
replace_fence (a ∷ b ∷ c ∷ code) =
    let behind = replace_fence code in
    let next = replace_fence (b ∷ c ∷ code) in
    if (a == 96) && ((b == 96) && (c == 96)) then 92 ∷ 96 ∷ 92 ∷ 96 ∷ 92 ∷ 96 ∷ behind else a ∷ next

unfoldable pub code_block : Text → Text → Text
unfolding replace_fence
code_block code language =
    96 ∷ 96 ∷ 96 ∷ (language ++ 10 ∷ (replace_fence code ++ 10 ∷ 96 ∷ 96 ∷ 96 ∷ []))

unfoldable pub link : (Text → Bool) → Text → Text → Result Text
link is_url text url =
    if is_url url then ok (91 ∷ (text ++ 93 ∷ 40 ∷ (url ++ 41 ∷ []))) else err value_error

-- `quote`: "> " stands before every line, and ">>> " before the first one of a block.
unfoldable pub quote_lines : Text → Text
quote_lines [] = []
quote_lines (c ∷ text) =
    let rest = quote_lines text in if c == 10 then 10 ∷ 62 ∷ 32 ∷ rest else c ∷ rest

unfoldable pub quote : Text → Bool → Text
unfolding quote_lines
quote text true = 62 ∷ 62 ∷ 62 ∷ 32 ∷ quote_lines text
quote text false = 62 ∷ 32 ∷ quote_lines text

-- "*_~`|@", and a backslash behind them for code.
abbrev pub special_chars : Bool → List ℕ
special_chars false = 42 ∷ 95 ∷ 126 ∷ 96 ∷ 124 ∷ 64 ∷ []
special_chars true = 42 ∷ 95 ∷ 126 ∷ 96 ∷ 124 ∷ 64 ∷ 92 ∷ []

unfoldable pub escape : Text → Bool → Text
unfolding replace
escape text code = foldl (λ result char. replace char result) text (special_chars code)
