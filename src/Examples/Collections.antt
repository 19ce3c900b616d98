-- ===== src/Examples/Collections.antt =====
-- A collection as a list: a new document comes last, and sorting is by insertion.
use mathlib.Core.List.{append-nil}
use react_websocket_chat.Prelude.{
  ℕ, ◌+◌, ◌≤◌, ◌≡◌, refl, sym, Bool, ◌&&◌, List, [], ◌∷◌, ◌++◌, map, Option, none, some, arith, leb,
  ◌==◌, if◌then◌else◌, filter, find, count, Below, Descending, Bool-cases, inl, inr,
}
use react_websocket_chat.Model.{ObjectId, Message}
use react_websocket_chat.Mongo.{Collection}

module _ {A : Type 0} (key : A → ℕ) where
  abbrev pub insert_desc : A → List A → List A
  insert_desc a [] = a ∷ []
  insert_desc a (x ∷ xs) =
      let rest = insert_desc a xs in if leb (key x) (key a) then a ∷ x ∷ xs else x ∷ rest

  abbrev pub sort_desc : List A → List A
  sort_desc [] = []
  sort_desc (x ∷ xs) = insert_desc x (sort_desc xs)

  count-insert_desc :
      (p : A → Bool) (a : A) (xs : List A)
      → count p (insert_desc a xs) ≡ (if p a then 1 else 0) + count p xs
  count-insert_desc p a [] = refl
  count-insert_desc p a (x ∷ xs) = ground (arith, count-insert_desc p a xs)

  pub count-sort_desc : (p : A → Bool) (xs : List A) → count p (sort_desc xs) ≡ count p xs
  count-sort_desc p [] = refl
  count-sort_desc p (x ∷ xs) =
      omega (arith, count-insert_desc p x (sort_desc xs), count-sort_desc p xs)

  Below-insert_desc :
      (bound : ℕ) (a : A) (xs : List A)
      → key a ≤ bound
      → Below key bound xs
      → Below key bound (insert_desc a xs)
  Below-insert_desc bound a [] h b = (h, tt)
  Below-insert_desc bound a (x ∷ xs) h b = ground (arith, Below-insert_desc bound a xs h b.1)

  Below-le : (low high : ℕ) (xs : List A) → low ≤ high → Below key low xs → Below key high xs
  Below-le low high [] h b = tt
  Below-le low high (x ∷ xs) h b = (omega arith, Below-le low high xs h b.1)

  insert_desc-Descending :
      (a : A) (xs : List A) → Descending key xs → Descending key (insert_desc a xs)
  insert_desc-Descending a [] d = (tt, tt)
  insert_desc-Descending a (x ∷ xs) d = elim (Bool-cases (leb (key x) (key a))) [
    | inl le ↦ rw le ((ground arith, Below-le (key x) (key a) xs (ground arith) d.0), d)
    | inr gt ↦
        rw gt (Below-insert_desc (key x) a xs (ground arith) d.0, insert_desc-Descending a xs d.1)
  ]

  pub sort_desc-Descending : (xs : List A) → Descending key (sort_desc xs)
  sort_desc-Descending [] = tt
  sort_desc-Descending (x ∷ xs) = insert_desc-Descending x (sort_desc xs) (sort_desc-Descending xs)

abbrev pub listed : {A : Type 0} → Collection A
listed {A} = record {
  find_many = filter;
  find_one = find;
  create = λ doc docs. docs ++ doc ∷ [];
  update = λ p f docs. map (λ doc. if p doc then f doc else doc) docs;
  sort_desc = sort_desc;
  find_many_lem = λ p docs. refl;
  find_one_lem = λ p docs. refl;
  create_lem = λ doc docs. (docs, [], sym (append-nil docs), refl);
  update_lem = λ p f docs. refl;
  count-sort_desc = count-sort_desc;
  sort_desc-Descending = sort_desc-Descending;
}

module _ (p : Message → Bool) (key : Message → ObjectId) where
  -- One more in the group of this key.
  abbrev pub add_to_group : ObjectId → List (ObjectId × ℕ) → List (ObjectId × ℕ)
  add_to_group k [] = (k, 1) ∷ []
  add_to_group k (entry ∷ groups) =
      let rest = add_to_group k groups in
      if entry.0 == k then (k, entry.1 + 1) ∷ groups else entry ∷ rest

  abbrev pub group_count : List Message → List (ObjectId × ℕ)
  group_count [] = []
  group_count (msg ∷ msgs) =
      let rest = group_count msgs in if p msg then add_to_group (key msg) rest else rest

  abbrev pub size : Option (ObjectId × ℕ) → ℕ
  size none = 0
  size (some entry) = entry.1

  find-add_to_group :
      (k id : ObjectId) (groups : List (ObjectId × ℕ))
      → find (λ entry. entry.0 == id) (add_to_group k groups) ≡ (
          if k == id
          then some (id, size (find (λ entry. entry.0 == id) groups) + 1)
          else find (λ entry. entry.0 == id) groups)
  find-add_to_group k id [] = ground arith
  find-add_to_group k id (entry ∷ groups) = ground (arith, find-add_to_group k id groups)

  pub group_count_lem :
      (docs : List Message) (id : ObjectId)
      → find (λ entry. entry.0 == id) (group_count docs) ≡ (
          if count (λ doc. p doc && key doc == id) docs == 0
          then none
          else some (id, count (λ doc. p doc && key doc == id) docs))
  group_count_lem [] id = refl
  group_count_lem (msg ∷ msgs) id =
      ground (arith, find-add_to_group (key msg) id (group_count msgs), group_count_lem msgs id)
