-- ===== src/Mongo/Laws.antt =====
-- What the laws of a collection say of searches and counts over its documents.
use react_websocket_chat.Prelude.{
  ◌+◌, ◌≡◌, refl, ap, ◌∙◌, Bool, true, List, [], ◌∷◌, ◌++◌, some, none, arith, find, count,
  count-append, if◌then◌else◌,
}
use react_websocket_chat.Mongo.{Collection}

find-append :
    {A : Type 0} (p : A → Bool) (xs ys : List A) → find p xs ≡ none → find p (xs ++ ys) ≡ find p ys
find-append p [] ys h = refl
find-append p (x ∷ xs) ys h = ground (arith, find-append p xs ys)

find-append_left :
    {A : Type 0} (p : A → Bool) (xs ys : List A) → find p (xs ++ ys) ≡ none → find p xs ≡ none
find-append_left p [] ys h = refl
find-append_left p (x ∷ xs) ys h = ground (arith, find-append_left p xs ys)

-- A new document is the first that passes a test which none passed before.
pub find-create :
    {Doc : Type 0} (c : Collection Doc) (p : Doc → Bool) (doc : Doc) (docs : List Doc)
    → find p docs ≡ none
    → p doc ≡ true
    → find p (c.create doc docs) ≡ some doc
find-create c p doc docs missing passes =
    let (before, after, split, created) = c.create_lem doc docs in
    rw created (
      find-append p before (doc ∷ after) (find-append_left p before after (rw split at missing))
      ∙ rw passes)

-- A test counts the new document, wherever it stands.
pub count-create :
    {Doc : Type 0} (c : Collection Doc) (p : Doc → Bool) (doc : Doc) (docs : List Doc)
    → count p (c.create doc docs) ≡ (if p doc then 1 else 0) + count p docs
count-create c p doc docs =
    let (before, after, split, created) = c.create_lem doc docs in
    let new : count p (c.create doc docs) ≡ count p before + count p (doc ∷ after) =
      ap (count p) created ∙ count-append p before (doc ∷ after) in
    let old : count p docs ≡ count p before + count p after =
      ap (count p) split ∙ count-append p before after in
    omega (arith, new, old)
