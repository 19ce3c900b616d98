-- ===== src/Markup.antt =====
-- What the components of frontend-ui/src/components/ and frontend-ui/src/pages/ render: the tree of
-- elements that a component returns, without keys, refs, titles and placeholders.
pub mod Window
pub mod Frame
pub mod Rows
pub mod Sidebar
pub mod Pages
pub mod Bounds
pub mod Items
use react_websocket_chat.Prelude.{
  ℕ, String, Bool, true, false, List, [], ◌∷◌, ◌++◌, map, Option, none, some, any, ◌≡◌, refl, ap,
  ◌∙◌, sym, arith, str_eq, if◌then◌else◌,
}
use react_websocket_chat.Sanitize.{Text}
use react_websocket_chat.Forms.{Mode}

-- What an element calls when it is clicked, changed or submitted.
pub data Callback : Type 0 where
  select_conversation choose_user : (id : String) → Callback
  new_conversation close_modal create_conversation log_out submit_auth submit_message : Callback
  set_mode : Mode → Callback
  set_username set_email set_password set_search set_text stop_propagation : Callback

pub record Attributes : Type 0 where
  pub classes : List String
  pub callback : Option Callback
  pub value : Option Text
  pub is_disabled : Bool
  pub min_length : Option ℕ
  pub max_length : Option ℕ
  pub is_required : Bool

-- A node: an element, or a text that is data, a literal of the source or a number.
mutual
  pub data Node : Type 0 where
    element : (tag : String) → Attributes → Nodes → Node
    text : Text → Node
    literal : String → Node
    number : ℕ → Node

  pub data Nodes : Type 0 where
    nil : Nodes
    cons : Node → Nodes → Nodes

abbrev pub nodes : List Node → Nodes
nodes [] = nil
nodes (n ∷ ns) = cons n (nodes ns)

abbrev pub plain : Attributes
plain = record {
  classes = [];
  callback = none;
  value = none;
  is_disabled = false;
  min_length = none;
  max_length = none;
  is_required = false;
}

abbrev pub class_name : List String → Attributes
class_name names = record plain { classes = names }

abbrev pub calls : Callback → Attributes
calls callback = record plain { callback = some callback }

abbrev pub tag_of : String → Attributes → List Node → Node
tag_of tag attributes children = element tag attributes (nodes children)

abbrev pub div : String → List Node → Node
div name = tag_of "div" (class_name (name ∷ []))

abbrev pub span : String → List Node → Node
span name = tag_of "span" (class_name (name ∷ []))

abbrev pub paragraph : String → List Node → Node
paragraph name = tag_of "p" (class_name (name ∷ []))

-- {shown && node}
abbrev pub when : Bool → Node → List Node
when true node = node ∷ []
when false node = []

abbrev pub has_class : String → Attributes → Bool
has_class name attributes = any (λ c. str_eq c name) attributes.classes

-- An element: its attributes and what stands in it.
abbrev pub Element : Type 0
Element = Attributes × Nodes

abbrev found_element : Bool → Attributes → Nodes → List Element
found_element true attributes children = (attributes, children) ∷ []
found_element false attributes children = []

-- The elements that pass a test, in the order of the document.
unfoldable mutual
  pub elements : (String → Attributes → Bool) → Node → List Element
  elements p (element tag attributes children) =
      found_element (p tag attributes) attributes children ++ elements_in p children
  elements p (text t) = []
  elements p (literal s) = []
  elements p (number n) = []

  pub elements_in : (String → Attributes → Bool) → Nodes → List Element
  elements_in p nil = []
  elements_in p (cons n ns) = elements p n ++ elements_in p ns

-- What stands in the elements of a class.
abbrev pub contents : String → Node → List Nodes
contents name node = map (λ (e : Element). e.1) (elements (λ tag. has_class name) node)

-- The attributes of the elements of a class.
abbrev pub attributes_of : String → Node → List Attributes
attributes_of name node = map (λ (e : Element). e.0) (elements (λ tag. has_class name) node)

module _ (p : String → Attributes → Bool) where
  ++_assoc : (xs ys zs : List Element) → (xs ++ ys) ++ zs ≡ xs ++ (ys ++ zs)
  ++_assoc [] ys zs = refl
  ++_assoc (x ∷ xs) ys zs = ap (λ rest. x ∷ rest) (++_assoc xs ys zs)

  -- The elements in a list of nodes, by its parts.
  pub elements-append :
      (ms ns : List Node)
      → elements_in p (nodes (ms ++ ns)) ≡ elements_in p (nodes ms) ++ elements_in p (nodes ns)
  unfolding elements
  elements-append [] ns = refl
  elements-append (n ∷ ms) ns =
      ap (λ rest. elements p n ++ rest) (elements-append ms ns)
      ∙ sym (++_assoc (elements p n) (elements_in p (nodes ms)) (elements_in p (nodes ns)))

  -- A node that has none of them, shown or not.
  pub elements-when :
      (b : Bool) (n : Node) → elements p n ≡ [] → elements_in p (nodes (when b n)) ≡ []
  unfolding elements
  elements-when true n h = rw h refl
  elements-when false n h = refl
