-- ===== src/Thread/Own.antt =====
-- The messages of one conversation, in the state of frontend-ui/src/hooks/useMessages.ts.
use react_websocket_chat.Prelude.{
  String, ◌≡◌, ◌∙◌, List, [], ◌∷◌, ◌++◌, map, Option, none, some, All,
}
use react_websocket_chat.Server.{SocketMessagePayload}
use react_websocket_chat.Thread.{Thread, EffectRun, reverse_onto}

abbrev pub AllOf : String → List SocketMessagePayload → Type 0
AllOf conversation_id = All (λ msg. msg.conversation_id ≡ conversation_id)

-- While a conversation is open, only its messages are shown.
abbrev pub ShownOf : Option EffectRun → List SocketMessagePayload → Type 0
ShownOf none msgs = Unit
ShownOf (some run) msgs = AllOf run.conversation_id msgs

abbrev pub IsOwn : Thread → Type 0
IsOwn t = ShownOf t.current t.messages

pub AllOf-reverse_onto :
    (id : String) (msgs done : List SocketMessagePayload)
    → AllOf id msgs
    → AllOf id done
    → AllOf id (reverse_onto msgs done)
AllOf-reverse_onto id [] done h k = k
AllOf-reverse_onto id (msg ∷ msgs) done h k = AllOf-reverse_onto id msgs (msg ∷ done) h.1 (h.0, k)

pub AllOf-append :
    (id : String) (msgs : List SocketMessagePayload) (msg : SocketMessagePayload)
    → AllOf id msgs
    → msg.conversation_id ≡ id
    → AllOf id (msgs ++ msg ∷ [])
AllOf-append id [] msg h e = (e, tt)
AllOf-append id (x ∷ msgs) msg h e = (h.0, AllOf-append id msgs msg h.1 e)

pub AllOf-map :
    (id : String) (f : SocketMessagePayload → SocketMessagePayload)
    → ((msg : SocketMessagePayload) → (f msg).conversation_id ≡ msg.conversation_id)
    → (msgs : List SocketMessagePayload) → AllOf id msgs
    → AllOf id (map f msgs)
AllOf-map id f same [] h = tt
AllOf-map id f same (msg ∷ msgs) h = (same msg ∙ h.0, AllOf-map id f same msgs h.1)

pub ShownOf-map :
    (run : Option EffectRun) (f : SocketMessagePayload → SocketMessagePayload)
    → ((msg : SocketMessagePayload) → (f msg).conversation_id ≡ msg.conversation_id)
    → (msgs : List SocketMessagePayload) → ShownOf run msgs
    → ShownOf run (map f msgs)
ShownOf-map none f same msgs h = tt
ShownOf-map (some run) f same msgs h = AllOf-map run.conversation_id f same msgs h
