-- ===== src/Validators/Texts.antt =====
-- What the schema of a message text lets through (src/validators/message.validator.ts), and that the
-- schema of the stored document (src/models/Message.model.ts) takes it as it is.
use react_websocket_chat.Prelude.{
  ◌≤◌, String, ◌≡◌, refl, true, false, [], ◌∷◌, arith, ltb, leb, length,
}
use react_websocket_chat.Sanitize.{Text, trim, strip_html_tags, is_empty}
use react_websocket_chat.Sanitize.Tags.{
  tag_free, strip_html_tags-tag_free, length-strip_html_tags, trim-strip_html_tags,
}
use react_websocket_chat.Exec.{ok}
use react_websocket_chat.Model.{message_schema_text}
use react_websocket_chat.Validators.{valid, message_text}

-- A text that may be shown and stored: no sequence `<…>`, neither empty nor too long, and trimmed.
pub record IsClean (t : Text) : Type 0 where
  pub untagged : tag_free t ≡ true
  pub some_text : 1 ≤ length t
  pub bounded : length t ≤ 5000
  pub trimmed : trim t ≡ t

-- A text that the payload's schema lets through is the trimmed text without its tags, and is clean:
-- it holds no sequence `<…>`, is trimmed, and has from 1 to 5000 code units.
pub message_text-IsClean :
    (path : String) (t v : Text)
    → message_text path t ≡ valid v
    → IsClean v × (v ≡ strip_html_tags (trim t))
unfolding message_text
message_text-IsClean path t v h =
    let kept : leb 1 (length (strip_html_tags (trim t))) ≡ true = ground arith in
    let short : ltb 5000 (length (trim t)) ≡ false = ground arith in
    let same : v ≡ strip_html_tags (trim t) = ground arith in
    (
      rw same (record {
        untagged = strip_html_tags-tag_free (trim t);
        some_text = ground arith;
        bounded = ground (arith, length-strip_html_tags (trim t));
        trimmed = trim-strip_html_tags (trim t);
      }),
      same,
    )

pub nonempty : (t : Text) → 1 ≤ length t → is_empty t ≡ false
nonempty [] h = absurd (omega arith)
nonempty (c ∷ t) h = refl

-- The document's schema stores a clean text unchanged.
pub message_schema_text-IsClean : (t : Text) → IsClean t → message_schema_text t ≡ ok t
unfolding message_schema_text
message_schema_text-IsClean t clean =
    rw (clean.trimmed, nonempty t clean.some_text) (ground (arith, clean.bounded))
