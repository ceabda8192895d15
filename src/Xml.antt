-- ===== src/Xml.antt =====
-- xml.c: the accessors that the configuration is read through, on the tree that libxml2 has parsed.
pub mod Search
pub mod Removal
use mysql_governor.Base.{
  Bool, false, ◌&&◌, Option, none, some, List, [], ◌∷◌, if◌then◌else◌, Bytes, streq,
}

-- xmlNode, as far as it is read: its name, its attributes, each with the string that
-- xmlNodeListGetString answers for it, and its children. A pointer to a node that is followed by
-- `next` is the node with its later siblings.
mutual
  pub data Node : Type 0 where
    node : Bytes → List (Bytes × Option Bytes) → Nodes → Node

  pub data Nodes : Type 0 where
    nil : Nodes
    cons : Node → Nodes → Nodes

abbrev pub name_of : Node → Bytes
name_of (node name attributes children) = name

abbrev pub children_of : Node → Nodes
children_of (node name attributes children) = children

-- getElemAttr: the first attribute of the name decides.
unfoldable pub attribute_in : Bytes → List (Bytes × Option Bytes) → Option Bytes
attribute_in attr_name [] = none
attribute_in attr_name ((name, value) ∷ next) =
    if streq name attr_name then value else attribute_in attr_name next

abbrev pub get_elem_attr : Node → Bytes → Option Bytes
get_elem_attr (node name attributes children) attr_name = attribute_in attr_name attributes

abbrev or_else : Option Node → Option Node → Option Node
or_else none other = other
or_else (some n) other = some n

-- FindElementWithName: the loop over the siblings, and the call on a node.
unfoldable mutual
  pub find_in : Bytes → Nodes → Option Node
  find_in node_name nil = none
  find_in node_name (cons cur next) =
      if streq (name_of cur) node_name
      then some cur
      else or_else (find_element_with_name cur node_name) (find_in node_name next)

  pub find_element_with_name : Node → Bytes → Option Node
  find_element_with_name (node name attributes children) node_name = find_in node_name children

-- FindElementWithNameAndAttr: below a child it looks for the name alone.
unfoldable has_attr : Bytes → Bytes → Node → Bool
unfolding attribute_in
has_attr attr_name attr_value cur = elim (get_elem_attr cur attr_name) [
  | none ↦ false
  | some attr ↦ streq attr attr_value
]

unfoldable pub find_in_with_attr : Bytes → Bytes → Bytes → Nodes → Option Node
unfolding has_attr find_element_with_name
find_in_with_attr node_name attr_name attr_value nil = none
find_in_with_attr node_name attr_name attr_value (cons cur next) =
    if streq (name_of cur) node_name && has_attr attr_name attr_value cur
    then some cur
    else or_else (find_element_with_name cur node_name)
        (find_in_with_attr node_name attr_name attr_value next)

-- getNextChild: the next node of the name, from a node on, with its later siblings.
unfoldable pub get_next_child : Bytes → Nodes → Option (Node × Nodes)
get_next_child child_name nil = none
get_next_child child_name (cons cur next) =
    if streq (name_of cur) child_name then some (cur, next) else get_next_child child_name next

-- FindElementWithName and removeNode of what it finds.
unfoldable mutual
  unfolding find_element_with_name

  pub remove_in : Bytes → Nodes → Nodes
  remove_in node_name nil = nil
  remove_in node_name (cons cur next) =
      if streq (name_of cur) node_name then next else elim (find_element_with_name cur node_name) [
        | none ↦ cons cur (remove_in node_name next)
        | some found ↦ cons (remove_below node_name cur) next
      ]

  pub remove_below : Bytes → Node → Node
  remove_below node_name (node name attributes children) =
      node name attributes (remove_in node_name children)
