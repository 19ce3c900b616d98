-- ===== src/Sanitize/Tags.antt =====
-- stripHtmlTags of src/utils/sanitize.ts: what the regular expression leaves behind.
use react_websocket_chat.Prelude.{
  ℕ, zero, suc, ◌≤◌, ◌≡◌, refl, ap, ◌∙◌, Bool, true, ◌&&◌, not, [], ◌∷◌, none, some, inl, inr,
  arith, Option-cases, length, is_some,
}
use react_websocket_chat.Sanitize.{
  Text, trim_start, trim_end, trim, after_gt, match_tag, replace_tags, strip_html_tags,
}
use react_websocket_chat.Sanitize.Trim.{trim_idempotent, length-trim}

-- The regular expression matches nowhere in the text.
abbrev pub tag_free : Text → Bool
tag_free [] = true
tag_free (c ∷ s) = not (is_some (match_tag (c ∷ s))) && tag_free s

after_gt-replace_tags :
    (rounds : ℕ) (s : Text) → after_gt s ≡ none → after_gt (replace_tags rounds s) ≡ none
unfolding replace_tags after_gt match_tag
after_gt-replace_tags zero s h = h
after_gt-replace_tags (suc rounds) [] h = refl
after_gt-replace_tags (suc rounds) (c ∷ s) h = ground (arith, after_gt-replace_tags rounds s)

length-after_gt : (s rest : Text) → after_gt s ≡ some rest → suc (length rest) ≤ length s
unfolding after_gt
length-after_gt [] rest h = cc
length-after_gt (c ∷ s) rest h = ground (arith, length-after_gt s rest)

length-match_tag : (s rest : Text) → match_tag s ≡ some rest → suc (suc (length rest)) ≤ length s
unfolding match_tag
length-match_tag [] rest h = cc
length-match_tag (c ∷ s) rest h = ground (arith, length-after_gt s rest)

replace_tags-tag_free :
    (rounds : ℕ) (s : Text) → length s ≤ rounds → tag_free (replace_tags rounds s) ≡ true
unfolding replace_tags match_tag
replace_tags-tag_free zero [] h = refl
replace_tags-tag_free zero (c ∷ s) h = absurd (omega arith)
replace_tags-tag_free (suc rounds) [] h = refl
replace_tags-tag_free (suc rounds) (c ∷ s) h = elim (Option-cases (match_tag (c ∷ s))) [
  | inl unmatched ↦ ground (arith, replace_tags-tag_free rounds s, after_gt-replace_tags rounds s)
  | inr (rest, matched) ↦
      ground (arith, replace_tags-tag_free rounds rest, length-match_tag (c ∷ s) rest matched)
]

replace_tags_of_tag_free : (rounds : ℕ) (s : Text) → tag_free s ≡ true → replace_tags rounds s ≡ s
unfolding replace_tags
replace_tags_of_tag_free zero s h = refl
replace_tags_of_tag_free (suc rounds) [] h = refl
replace_tags_of_tag_free (suc rounds) (c ∷ s) h = ground (arith, replace_tags_of_tag_free rounds s)

length-replace_tags : (rounds : ℕ) (s : Text) → length (replace_tags rounds s) ≤ length s
unfolding replace_tags
length-replace_tags zero s = omega arith
length-replace_tags (suc rounds) [] = omega arith
length-replace_tags (suc rounds) (c ∷ s) = elim (Option-cases (match_tag (c ∷ s))) [
  | inl unmatched ↦ ground (arith, length-replace_tags rounds s)
  | inr (rest, matched) ↦
      ground (arith, length-replace_tags rounds rest, length-match_tag (c ∷ s) rest matched)
]

-- A trimmed text has a tag only where the text had one.
trim_start-tag_free : (s : Text) → tag_free s ≡ true → tag_free (trim_start s) ≡ true
unfolding trim_start
trim_start-tag_free [] h = refl
trim_start-tag_free (c ∷ s) h = ground (arith, trim_start-tag_free s)

after_gt-trim_end : (s : Text) → after_gt s ≡ none → after_gt (trim_end s) ≡ none
unfolding after_gt trim_end
after_gt-trim_end [] h = refl
after_gt-trim_end (c ∷ s) h = ground (arith, after_gt-trim_end s)

trim_end-tag_free : (s : Text) → tag_free s ≡ true → tag_free (trim_end s) ≡ true
unfolding trim_end match_tag
trim_end-tag_free [] h = refl
trim_end-tag_free (c ∷ s) h = ground (arith, trim_end-tag_free s, after_gt-trim_end s)

trim-tag_free : (s : Text) → tag_free s ≡ true → tag_free (trim s) ≡ true
unfolding trim
trim-tag_free s h = trim_end-tag_free (trim_start s) (trim_start-tag_free s h)

-- Whatever the text, no sequence `<…>` is left in the sanitised text.
pub strip_html_tags-tag_free : (text : Text) → tag_free (strip_html_tags text) ≡ true
unfolding strip_html_tags
strip_html_tags-tag_free text =
    trim-tag_free (replace_tags (length text) text)
      (replace_tags-tag_free (length text) text (omega arith))

-- A text without a sequence `<…>` is only trimmed: punctuation such as a lone `<` is kept.
pub strip_html_tags_of_tag_free :
    (text : Text) → tag_free text ≡ true → strip_html_tags text ≡ trim text
unfolding strip_html_tags
strip_html_tags_of_tag_free text h = ap trim (replace_tags_of_tag_free (length text) text h)

pub trim-strip_html_tags : (t : Text) → trim (strip_html_tags t) ≡ strip_html_tags t
unfolding strip_html_tags
trim-strip_html_tags t = trim_idempotent (replace_tags (length t) t)

-- Sanitising a sanitised text changes nothing.
pub strip_html_tags_idempotent :
    (text : Text) → strip_html_tags (strip_html_tags text) ≡ strip_html_tags text
strip_html_tags_idempotent text =
    strip_html_tags_of_tag_free (strip_html_tags text) (strip_html_tags-tag_free text)
    ∙ trim-strip_html_tags text

pub length-strip_html_tags : (text : Text) → length (strip_html_tags text) ≤ length text
unfolding strip_html_tags
length-strip_html_tags text =
    omega
      (arith, length-replace_tags (length text) text, length-trim (replace_tags (length text) text))
