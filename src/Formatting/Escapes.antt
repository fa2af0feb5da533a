-- ===== src/Formatting/Escapes.antt =====
-- What escaping does to each character, and what Discord shows of it.
use vaidcord.Base.{
  ℕ, ◌≡◌, refl, sym, ap, ◌∙◌, Bool, true, false, List, [], ◌∷◌, ◌++◌, ◌==◌, if◌then◌else◌, contains,
  arith,
}
use vaidcord.Base.Texts.{Text}
use vaidcord.Formatting.{replace, special_chars, escape}

-- One pass that puts a backslash before each of the characters.
abbrev pass : List ℕ → Text → Text
pass chars [] = []
pass chars (c ∷ text) =
    let rest = pass chars text in if contains c chars then 92 ∷ c ∷ rest else c ∷ rest

pass_nothing : (text : Text) → pass [] text ≡ text
pass_nothing [] = refl
pass_nothing (c ∷ text) = ap (λ (r : Text). c ∷ r) (pass_nothing text)

-- Passes for different characters, none of them a backslash, do what one does.
replace-pass :
    (char : ℕ) (chars : List ℕ) (text : Text)
    → contains char chars ≡ false
    → (char == 92) ≡ false
    → replace char (pass chars text) ≡ pass (char ∷ chars) text
unfolding replace
replace-pass char chars [] h k = refl
replace-pass char chars (c ∷ text) h k = ground (arith, h, k, replace-pass char chars text h k)

-- What escaping makes of one character: for code the backslash that was put before a special one is
-- escaped once more.
unfoldable pub escaped_char : Bool → ℕ → Text
escaped_char false c = if contains c (special_chars false) then 92 ∷ c ∷ [] else c ∷ []
escaped_char true c =
    if contains c (special_chars false)
    then 92 ∷ 92 ∷ c ∷ []
    else if c == 92
    then 92 ∷ 92 ∷ []
    else c ∷ []

unfoldable pub escaped : Bool → Text → Text
escaped code [] = []
escaped code (c ∷ text) = escaped_char code c ++ escaped code text

abbrev reversed : List ℕ
reversed = 64 ∷ 124 ∷ 96 ∷ 126 ∷ 95 ∷ 42 ∷ []

escape-pass : (text : Text) → escape text false ≡ pass reversed text
unfolding escape
escape-pass text =
    let start = sym (pass_nothing text) in
    ap (replace 64) (
      ap (replace 124) (
        ap (replace 96) (
          ap (replace 126) (
            ap (replace 95) (ap (replace 42) start ∙ replace-pass 42 [] text refl refl)
            ∙ replace-pass 95 (42 ∷ []) text refl refl)
          ∙ replace-pass 126 (95 ∷ 42 ∷ []) text refl refl)
        ∙ replace-pass 96 (126 ∷ 95 ∷ 42 ∷ []) text refl refl)
      ∙ replace-pass 124 (96 ∷ 126 ∷ 95 ∷ 42 ∷ []) text refl refl)
    ∙ replace-pass 64 (124 ∷ 96 ∷ 126 ∷ 95 ∷ 42 ∷ []) text refl refl

pass-escaped : (text : Text) → pass reversed text ≡ escaped false text
unfolding escaped escaped_char
pass-escaped [] = refl
pass-escaped (c ∷ text) = ground (arith, pass-escaped text)

replace-escaped : (text : Text) → replace 92 (pass reversed text) ≡ escaped true text
unfolding escaped escaped_char replace
replace-escaped [] = refl
replace-escaped (c ∷ text) = ground (arith, replace-escaped text)

-- The passes of `escape`, one per special character over the whole text, do to each character by
-- itself: put a backslash before it if it is special, and for code put two before a special one and
-- double a backslash.
pub escape-escaped : (text : Text) (code : Bool) → escape text code ≡ escaped code text
unfolding escape
escape-escaped text false = escape-pass text ∙ pass-escaped text
escape-escaped text true = ap (replace 92) (escape-pass text) ∙ replace-escaped text

-- What Discord shows of a text: a backslash before a special character or a backslash is dropped, and
-- what it stands before is shown as it is. The flag is whether a backslash came just before.
unfoldable pub shown : Bool → Text → Text
shown false [] = []
shown true [] = 92 ∷ []
shown false (c ∷ text) =
    let open_text = shown false text in
    let escaped_text = shown true text in if c == 92 then escaped_text else c ∷ open_text
shown true (c ∷ text) =
    let open_text = shown false text in
    if contains c (special_chars true) then c ∷ open_text else 92 ∷ c ∷ open_text

shown-escaped : (text : Text) → contains 92 text ≡ false → shown false (escaped false text) ≡ text
unfolding shown escaped escaped_char
shown-escaped [] h = refl
shown-escaped (c ∷ text) h = ground (arith, h, shown-escaped text)

-- A text without a backslash is shown as it was written once it is escaped.
pub shown-escape : (text : Text) → contains 92 text ≡ false → shown false (escape text false) ≡ text
unfolding shown
shown-escape text h = ap (shown false) (escape-escaped text false) ∙ shown-escaped text h
