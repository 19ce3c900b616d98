-- ===== src/Markup/Frame.antt =====
-- What ChatWindow (frontend-ui/src/components/ChatWindow.tsx) renders around its messages.

use react_websocket_chat.Prelude.{
  String, ◌≡◌, refl, ap, Bool, false, List, [], ◌∷◌, ◌++◌, map, All, str_eq,
}
use react_websocket_chat.Views.{
  Title, titled, select_a_conversation, Subtitle, no_subtitle, is_online_now, is_offline_now,
  member_count,
}
use react_websocket_chat.Markup.{
  Node, Element, Attributes, nodes, when, tag_of, plain, paragraph, text, literal, has_class,
  elements, elements_in, elements-append, elements-when,
}
use react_websocket_chat.Markup.Window.{
  WindowProps, join_names, name_in, title_nodes, subtitle_nodes, window_of_rows,
}

-- The classes of ChatWindow that are not of a message.
abbrev pub frame_classes : List String
frame_classes =
    "chat-window" ∷ "chat-window-header" ∷ "chat-window-body" ∷ "chat-window-hint"
    ∷ "typing-indicator" ∷ []

pub ++_nil : (xs : List Element) → xs ++ [] ≡ xs
++_nil [] = refl
++_nil (x ∷ xs) = ap (λ rest. x ∷ rest) (++_nil xs)

module _ (name : String) where
  title-free : (t : Title) → elements_in (λ tag. has_class name) (nodes (title_nodes t)) ≡ []
  unfolding elements
  title-free select_a_conversation = refl
  title-free (titled t) = refl

  subtitle-free :
      (t : Subtitle) → elements_in (λ tag. has_class name) (nodes (subtitle_nodes t)) ≡ []
  unfolding elements
  subtitle-free no_subtitle = refl
  subtitle-free is_online_now = refl
  subtitle-free is_offline_now = refl
  subtitle-free (member_count n) = refl

  body-free :
      (a b c : Bool) (loading empty typing : Node) (rows : List Node)
      → elements (λ tag. has_class name) loading ≡ []
      → elements (λ tag. has_class name) empty ≡ []
      → elements (λ tag. has_class name) typing ≡ []
      → elements_in
          (λ tag. has_class name)
          (nodes (
            when a loading
            ++ (when b empty ++ (rows ++ (when c typing ++ tag_of "div" plain [] ∷ [])))))
        ≡ elements_in (λ tag. has_class name) (nodes rows)
  unfolding elements
  body-free a b c loading empty typing rows h k l =
      let p : String → Attributes → Bool = λ tag. has_class name in
      rw
        (
          elements-append p (when a loading)
              (when b empty ++ (rows ++ (when c typing ++ tag_of "div" plain [] ∷ []))),
          elements-append p (when b empty) (rows ++ (when c typing ++ tag_of "div" plain [] ∷ [])),
          elements-append p rows (when c typing ++ tag_of "div" plain [] ∷ []),
          elements-append p (when c typing) (tag_of "div" plain [] ∷ []),
          elements-when p a loading h,
          elements-when p b empty k,
          elements-when p c typing l,
        )
        (++_nil (elements_in p (nodes rows)))

  -- The elements of a class that is none of the frame's stand in the rows.
  pub elements_of_window :
      (props : WindowProps) (rows : List Node)
      → All (λ c. str_eq c name ≡ false) frame_classes
      → elements (λ tag. has_class name) (window_of_rows props rows)
        ≡ elements_in (λ tag. has_class name) (nodes rows)
  unfolding elements window_of_rows
  elements_of_window props rows (a, (b, (c, (d, (e, f))))) =
      rw
        (
          a,
          b,
          c,
          title-free props.title,
          subtitle-free props.subtitle,
          body-free _ _ _ (paragraph "chat-window-hint" (literal "Loading messages…" ∷ []))
              (paragraph "chat-window-hint" (literal "No messages yet. Say hello!" ∷ []))
              (paragraph "typing-indicator"
                (text (join_names (map name_in props.typing_users)) ∷ literal " typing…" ∷ []))
              rows (rw d refl) (rw d refl) (rw e refl),
        )
        (++_nil _)
