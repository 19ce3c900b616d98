-- ===== src/Messages/Interleaving/Reads.antt =====
-- Whether a message that is read stays read while receipts interleave
-- (src/services/message.service.ts).
use mathlib.Core.Option
use react_websocket_chat.Prelude.{
  ℕ, ◌≡◌, ◌≢◌, refl, ap, sym, ◌∙◌, String, true, false, List, [], ◌∷◌, ◌++◌, map, Option, some,
  find, find-true, arith, All, All-append, All-split, Bool-cases, Option-cases, inl, inr, ◌==◌,
  if◌then◌else◌,
}
use react_websocket_chat.Exec.{ok}
use react_websocket_chat.Model.{
  ObjectId, Message, MessageStatus, delivered, read, is_sent, Db, includes,
}
use react_websocket_chat.Mongo.{Mongo}
use react_websocket_chat.Messages.{find_message, save_status, advance_to_delivered, update_read}
use react_websocket_chat.Messages.Marked.{marked}
use react_websocket_chat.Messages.Interleaving.{
  Receipt, found_message, admitted, reading, reading_up_to, to_mark, Service, Step, find_by_id,
  check_member, save, check_reader, find_up_to, find_to_update, update_many, drop, update_read-db,
  Reach, here, later, Keeps, Reach-Keeps,
}

-- The status of the message with this id, if there is one.
abbrev pub status_of : ObjectId → List Message → Option MessageStatus
status_of id msgs = Option.map (λ msg. msg.status) (find (λ msg. msg.id == id) msgs)

-- What is read in the one list is read in the other.
abbrev pub KeepsReads : List Message → List Message → Type 0
KeepsReads before after =
    (id : ObjectId) → status_of id before ≡ some read → status_of id after ≡ some read

status_of-marked :
    (now : ℕ) (ids : List ObjectId) (id : ObjectId) (msgs : List Message)
    → status_of id msgs ≡ some read
    → status_of id (map (marked now ids) msgs) ≡ some read
status_of-marked now ids id [] h = h
status_of-marked now ids id (x ∷ msgs) h = elim (Bool-cases (x.id == id)) [
  | inl hit ↦ elim (Bool-cases (includes x.id ids)) [
    | inl listed ↦ rw (listed, hit) refl
    | inr other ↦ rw (other, hit) (rw hit at h)
  ]
  | inr miss ↦
      let rest = status_of-marked now ids id msgs (rw miss at h) in
      elim (Bool-cases (includes x.id ids)) [
        | inl listed ↦ rw (listed, miss) rest
        | inr other ↦ rw (other, miss) rest
      ]
]

status_of-saved :
    (now : ℕ) (saved id : ObjectId) (msgs : List Message)
    → (saved == id) ≡ false
    → status_of id (
        map
          (λ msg.
            if msg.id == saved then record msg { status = delivered; updated_at = now } else msg)
          msgs)
      ≡ status_of id msgs
status_of-saved now saved id [] other = refl
status_of-saved now saved id (x ∷ msgs) other =
    let rest = status_of-saved now saved id msgs other in
    elim (Bool-cases (x.id == saved)) [
      | inl hit ↦
          let miss : (x.id == id) ≡ false = ground (arith, hit, other) in rw (hit, miss) rest
      | inr kept ↦ elim (Bool-cases (x.id == id)) [
        | inl hit ↦ rw (kept, hit) refl
        | inr miss ↦ rw (kept, miss) rest
      ]
    ]

-- A receipt that will write `delivered` is not for a message that was read at the start.
abbrev Harmless : List Message → Receipt → Type 0
Harmless start (found_message user_id msg) =
    is_sent msg.status ≡ true → status_of msg.id start ≢ some read
Harmless start (admitted msg) = is_sent msg.status ≡ true → status_of msg.id start ≢ some read
Harmless start _ = Unit

record Guarded (start : List Message) (s : Service) : Type 0 where
  reads : KeepsReads start s.db.messages
  pending : All (Harmless start) s.pending

replaced :
    (start : List Message) (s : Service) (before after : List Receipt) (r : Receipt)
    → s.pending ≡ before ++ r ∷ after
    → All (Harmless start) s.pending
    → Harmless start r
      × ((q : Receipt) → Harmless start q → All (Harmless start) (before ++ q ∷ after))
      × All (Harmless start) (before ++ after)
replaced start s before after r split h =
    let (hb, (hr, ha)) = All-split (Harmless start) before (r ∷ after) (rw split at h) in
    (
      hr,
      λ q hq. All-append (Harmless start) before (q ∷ after) hb (hq, ha),
      All-append (Harmless start) before after hb ha,
    )

found_status :
    (m : Mongo) (message_id : String) (db : Db) (msg : Message)
    → find_message m message_id db ≡ ok (some msg)
    → status_of msg.id db.messages ≡ some msg.status
unfolding find_message
found_status m message_id db msg h = elim (Option-cases (m.parse message_id)) [
  | inl unparsed ↦ absurd (ground arith)
  | inr (id, parsed) ↦
      let one = m.messages.find_one_lem (λ x. x.id == id) db.messages in
      let found : find (λ x. x.id == id) db.messages ≡ some msg = ground arith in
      let same : msg.id ≡ id =
        let hit = find-true (λ x. x.id == id) db.messages msg found in ground (arith, hit) in
      rw (same, found) refl
]

save-KeepsReads :
    (m : Mongo) (now : ℕ) (msg : Message) (start : List Message) (db : Db)
    → (is_sent msg.status ≡ true → status_of msg.id start ≢ some read)
    → KeepsReads start db.messages
    → KeepsReads start (advance_to_delivered m now msg db).1.messages
unfolding advance_to_delivered save_status
save-KeepsReads m now msg start db harmless keep id h = elim (Bool-cases (is_sent msg.status)) [
  | inr done ↦ rw done (keep id h)
  | inl fresh ↦
      let other : (msg.id == id) ≡ false = elim (Bool-cases (msg.id == id)) [
        | inr miss ↦ miss
        | inl hit ↦
            let same : msg.id ≡ id = ground (arith, hit) in
            absurd (harmless fresh (ap (λ i. status_of i start) same ∙ h))
      ] in
      rw
        (
          fresh,
          m.messages.update_lem (λ x. x.id == msg.id)
              (λ x. record x { status = delivered; updated_at = now }) db.messages,
        )
        (status_of-saved now msg.id id db.messages other ∙ keep id h)
]

update_read-KeepsReads :
    (m : Mongo) (now : ℕ) (ids : List String) (start : List Message) (db : Db)
    → KeepsReads start db.messages
    → KeepsReads start (update_read m now ids db).1.messages
update_read-KeepsReads m now ids start db keep id h = elim (update_read-db m now ids db) [
  | inl same ↦ rw same (keep id h)
  | inr (oids, e) ↦ rw e (status_of-marked now oids id db.messages (keep id h))
]

Step-Guarded :
    {m : Mongo} {s t : Service} (start : List Message)
    → Step m s t
    → Guarded start s
    → Guarded start t
Step-Guarded {m = m} start (find_by_id s message_id user_id msg valid found) g = record {
  reads = g.reads;
  pending = (
    λ fresh was_read.
        let now_read : status_of msg.id s.db.messages ≡ some read = g.reads msg.id was_read in
        let found' = found_status m message_id s.db msg found in
        let same : some msg.status ≡ some read = sym found' ∙ now_read in
        ground (arith, fresh, same),
    g.pending,
  );
}
Step-Guarded start (check_member s before after user_id msg split member) g =
    let (hr, put, _) = replaced start s before after (found_message user_id msg) split g.pending in
    record { reads = g.reads; pending = put (admitted msg) hr }
Step-Guarded {m = m} start (save s now before after msg split) g =
    let (hr, _, rest) = replaced start s before after (admitted msg) split g.pending in
    record { reads = save-KeepsReads m now msg start s.db hr g.reads; pending = rest }
Step-Guarded start (check_reader s conversation_id up_to user_id valid valid' member) g = record {
  reads = g.reads;
  pending = (tt, g.pending);
}
Step-Guarded start (find_up_to s before after room up_to_id user_id up_to split found) g =
    let (_, put, _) =
      replaced start s before after (reading room up_to_id user_id) split g.pending in
    record { reads = g.reads; pending = put (reading_up_to room user_id up_to) tt }
Step-Guarded start (find_to_update s before after room user_id up_to cid uid split pc pu) g =
    let (_, put, _) =
      replaced start s before after (reading_up_to room user_id up_to) split g.pending in
    record { reads = g.reads; pending = put (to_mark _) tt }
Step-Guarded {m = m} start (update_many s now before after ids split some_ids) g =
    let (_, _, rest) = replaced start s before after (to_mark ids) split g.pending in
    record { reads = update_read-KeepsReads m now ids start s.db g.reads; pending = rest }
Step-Guarded start (drop s before after r split) g =
    let (_, _, rest) = replaced start s before after r split g.pending in
    record { reads = g.reads; pending = rest }

Reach-Guarded : {m : Mongo} {db : Db} {s : Service} → Reach m db s → Guarded db.messages s
Reach-Guarded here = record { reads = λ id h. h; pending = tt }
Reach-Guarded {db = db} (later r step) = Step-Guarded db.messages step (Reach-Guarded r)

-- However the awaited calls of receipts interleave, no message is lost, added, moved or changed in its
-- id, conversation, sender, text or time; none that was delivered or read becomes `sent` again; and
-- what was read before they began stays read.
pub Reach-KeepsReads :
    {m : Mongo} {db : Db} {s : Service}
    → Reach m db s
    → Keeps db.messages s.db.messages × KeepsReads db.messages s.db.messages
Reach-KeepsReads r = (Reach-Keeps r, (Reach-Guarded r).reads)
