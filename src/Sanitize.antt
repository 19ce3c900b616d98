-- ===== src/Sanitize.antt =====
-- src/utils/sanitize.ts. A JavaScript string is a list of UTF-16 code units.
pub mod Trim
pub mod Tags
use react_websocket_chat.Prelude.{
  ℕ, zero, suc, Bool, true, false, ◌&&◌, ◌||◌, List, [], ◌∷◌, Option, none, some, leb, ◌==◌,
  if◌then◌else◌, length,
}

abbrev pub Text : Type 0
Text = List ℕ

-- ECMAScript's WhiteSpace and LineTerminator code units.
unfoldable pub is_space : ℕ → Bool
is_space c =
    (leb 9 c && leb c 13)
    || c == 32
    || c == 0xa0
    || c == 0x1680
    || (leb 0x2000 c && leb c 0x200a)
    || c == 0x2028
    || c == 0x2029
    || c == 0x202f
    || c == 0x205f
    || c == 0x3000
    || c == 0xfeff

unfoldable pub trim_start : Text → Text
trim_start [] = []
trim_start (c ∷ s) = if is_space c then trim_start s else c ∷ s

abbrev pub is_empty : Text → Bool
is_empty [] = true
is_empty (c ∷ s) = false

unfoldable pub trim_end : Text → Text
trim_end [] = []
trim_end (c ∷ s) = let rest = trim_end s in if is_space c && is_empty rest then [] else c ∷ rest

-- s.trim()
unfoldable pub trim : Text → Text
unfolding trim_start trim_end is_space
trim s = trim_end (trim_start s)

-- What follows the first `>`.
unfoldable pub after_gt : Text → Option Text
after_gt [] = none
after_gt (c ∷ s) = if c == b'>' then some s else after_gt s

-- The regular expression /<[^>]*>/ at the start of a text: what follows the match.
unfoldable pub match_tag : Text → Option Text
unfolding after_gt
match_tag [] = none
match_tag (c ∷ s) = if c == b'<' then after_gt s else none

-- s.replace(/<[^>]*>/g, ''): every round drops a match or keeps one code unit, so the length of
-- the text bounds the rounds.
unfoldable pub replace_tags : ℕ → Text → Text
unfolding match_tag
replace_tags zero s = s
replace_tags (suc rounds) [] = []
replace_tags (suc rounds) (c ∷ s) = elim (match_tag (c ∷ s)) [
  | some rest ↦ replace_tags rounds rest
  | none ↦ c ∷ replace_tags rounds s
]

unfoldable pub strip_html_tags : Text → Text
unfolding replace_tags trim
strip_html_tags text = trim (replace_tags (length text) text)
