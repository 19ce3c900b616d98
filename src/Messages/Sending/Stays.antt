-- ===== src/Messages/Sending/Stays.antt =====
-- What messages that stay stored mean for `lastMessage` (src/services/message.service.ts).
use react_websocket_chat.Prelude.{
  ◌≡◌, refl, Bool, true, List, [], ◌∷◌, map, Option, none, some, arith, any-append, All, Bool-cases,
  inl, inr, ◌==◌, ◌&&◌,
}
use react_websocket_chat.Model.{ObjectId, Conversation, Message}
use react_websocket_chat.Mongo.{Collection}
use react_websocket_chat.Conversations.{Stamp}
use react_websocket_chat.Messages.Send.{bumped}
use react_websocket_chat.Messages.Interleaving.{Keeps}
use react_websocket_chat.Messages.Sending.{Unsaved, has_message, names_own, NamesOwn}

abbrev pub Stays : List Message → List Message → Type 0
Stays before after =
    (cid id : ObjectId) → has_message cid id before ≡ true → has_message cid id after ≡ true

pub create-Stays :
    (coll : Collection Message) (msg : Message) (msgs : List Message)
    → Stays msgs (coll.create msg msgs)
create-Stays coll msg msgs cid id h =
    let (before, after, split, created) = coll.create_lem msg msgs in
    let p : Message → Bool = λ x. x.id == id && x.conversation_id == cid in
    rw created
      (ground (arith, any-append p before (msg ∷ after), any-append p before after, rw split at h))

pub has_message-create :
    (coll : Collection Message) (msg : Message) (msgs : List Message)
    → has_message msg.conversation_id msg.id (coll.create msg msgs) ≡ true
has_message-create coll msg msgs =
    let (before, after, split, created) = coll.create_lem msg msgs in
    let p : Message → Bool = λ x. x.id == msg.id && x.conversation_id == msg.conversation_id in
    rw created (ground (arith, any-append p before (msg ∷ after)))

pub Keeps-Stays : (xs ys : List Message) → Keeps xs ys → Stays xs ys
Keeps-Stays [] [] k cid id h = h
Keeps-Stays [] (y ∷ ys) k cid id h = absurd k
Keeps-Stays (x ∷ xs) [] k cid id h = absurd k
Keeps-Stays (x ∷ xs) (y ∷ ys) (a, k) cid id h =
    ground (arith, a.id, a.conversation, Keeps-Stays xs ys k cid id)

pub Stays-names_own :
    (msgs msgs' : List Message) (cid : ObjectId) (last : Option ObjectId)
    → Stays msgs msgs'
    → names_own msgs cid last ≡ true
    → names_own msgs' cid last ≡ true
Stays-names_own msgs msgs' cid none stay h = refl
Stays-names_own msgs msgs' cid (some id) stay h = stay cid id h

pub Stays-NamesOwn :
    (msgs msgs' : List Message) (cs : List Conversation)
    → Stays msgs msgs'
    → NamesOwn msgs cs
    → NamesOwn msgs' cs
Stays-NamesOwn msgs msgs' [] stay h = tt
Stays-NamesOwn msgs msgs' (c ∷ cs) stay (hc, h) =
    (Stays-names_own msgs msgs' c.id c.last_message stay hc, Stays-NamesOwn msgs msgs' cs stay h)

pub bumped-NamesOwn :
    (stamp : Stamp) (cid : ObjectId) (msgs : List Message) (cs : List Conversation)
    → has_message cid stamp.new_id msgs ≡ true
    → NamesOwn msgs cs
    → NamesOwn msgs (map (bumped stamp cid) cs)
bumped-NamesOwn stamp cid msgs [] stored h = tt
bumped-NamesOwn stamp cid msgs (c ∷ cs) stored (hc, h) =
    let rest = bumped-NamesOwn stamp cid msgs cs stored h in
    elim (Bool-cases (c.id == cid)) [
      | inl hit ↦ let same : c.id ≡ cid = ground arith in rw hit (rw same stored, rest)
      | inr miss ↦ rw miss (hc, rest)
    ]

pub stay_written :
    (msgs msgs' : List Message) (ws : List Unsaved)
    → Stays msgs msgs'
    → All (λ w. has_message w.conversation.id w.message.id msgs ≡ true) ws
    → All (λ w. has_message w.conversation.id w.message.id msgs' ≡ true) ws
stay_written msgs msgs' [] stay h = tt
stay_written msgs msgs' (w ∷ ws) stay (hw, h) =
    (stay w.conversation.id w.message.id hw, stay_written msgs msgs' ws stay h)
