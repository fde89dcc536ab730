-- ===== src/Zeppelin/Tree.antt =====
-- src/mcp_stdio/plugins/zeppelin/models.py: `build_notebook_tree`, the directory tree of the notebooks.
use etl_mcp_suite.Zeppelin.Models.{cons, nil, node, NotebookTreeNode, Nodes}
use etl_mcp_suite.Text.{eq_of_str_eq, str_eq_refl, codes, str_eq, Str}
use etl_mcp_suite.Base.{
  ◌≡◌, refl, sym, ap, ◌∙◌, subst, ◌≢◌, inl, inr, true, false, Option, none, some, List, [], ◌∷◌,
  ◌++◌, ◌==◌, if◌then◌else◌, Bool-cases, is_empty,
}

-- The nested dictionaries that the tree is built in: a notebook id, and the children in the order in
-- which they came.
mutual
  pub data Tree : Type 0 where
    branch : Option Str → Children → Tree

  pub data Children : Type 0 where
    childless : Children
    child : Str → Tree → Children → Children

-- `make_node()`
abbrev pub make_node : Tree
make_node = branch none childless

abbrev pub id_of : Tree → Option Str
id_of (branch id _) = id

abbrev pub children_of : Tree → Children
children_of (branch _ children) = children

-- `[seg for seg in path.split("/") if seg]`, with the segment that is being read.
unfoldable pub segments_from : Str → Str → List Str
segments_from segment [] = if is_empty segment then [] else segment ∷ []
segments_from segment (c ∷ s) =
    if c == b'/'
    then (if is_empty segment then segments_from [] s else segment ∷ segments_from [] s)
    else segments_from (segment ++ c ∷ []) s

unfoldable pub segments : Str → List Str
segments path = segments_from [] path

-- `children[segment]`, made if it is missing, and changed.
unfoldable pub change_child : Str → (Tree → Tree) → Children → Children
change_child segment change childless = child segment (change make_node) childless
change_child segment change (child name t rest) =
    if str_eq name segment
    then child name (change t) rest
    else child name t (change_child segment change rest)

-- The inner loop, on the segments that are left.
unfoldable pub insert : List Str → Str → Children → Children
insert [] notebook_id children = children
insert (segment ∷ []) notebook_id children =
    change_child segment (λ t. branch (some notebook_id) (children_of t)) children
insert (segment ∷ next ∷ rest) notebook_id children =
    change_child segment (λ t. branch (id_of t) (insert (next ∷ rest) notebook_id (children_of t)))
      children

-- The outer loop.
unfoldable pub insert_all : List (Str × Str) → Children → Children
insert_all [] root = root
insert_all ((notebook_id, path) ∷ entries) root =
    insert_all entries (insert (segments path) notebook_id root)

abbrev pub child_path : Str → Str → Str
child_path path name = if is_empty path then codes "/" ++ name else path ++ codes "/" ++ name

-- `to_node`, and its loop over the children.
unfoldable mutual
  pub to_node : Str → Str → Tree → NotebookTreeNode
  to_node name path (branch id children) = node name path id (to_nodes path children)

  pub to_nodes : Str → Children → Nodes
  to_nodes path childless = nil
  to_nodes path (child name t rest) =
      cons (to_node name (child_path path name) t) (to_nodes path rest)

unfoldable pub build_notebook_tree : List (Str × Str) → Nodes
build_notebook_tree entries = to_nodes [] (insert_all entries childless)

-- The child with a name; an empty one where there is none.
abbrev pub get_child : Str → Children → Tree
get_child segment childless = make_node
get_child segment (child name t rest) = if str_eq name segment then t else get_child segment rest

-- The notebook id under a path.
unfoldable pub find : List Str → Children → Option Str
find [] children = none
find (segment ∷ []) children = id_of (get_child segment children)
find (segment ∷ next ∷ rest) children =
    find (next ∷ rest) (children_of (get_child segment children))

get_child-change_child :
    (segment : Str) (change : Tree → Tree) (children : Children)
    → get_child segment (change_child segment change children) ≡ change (get_child segment children)
unfolding change_child
get_child-change_child segment change childless = rw (str_eq_refl segment) refl
get_child-change_child segment change (child name t rest) =
    elim (Bool-cases (str_eq name segment)) [
      | inl same ↦ rw same (rw same refl)
      | inr other ↦ rw other (rw other (get_child-change_child segment change rest))
    ]

get_child-other :
    (segment name : Str) (change : Tree → Tree) (children : Children)
    → str_eq segment name ≡ false
    → get_child name (change_child segment change children) ≡ get_child name children
unfolding change_child
get_child-other segment name change childless differ = rw differ refl
get_child-other segment name change (child n t rest) differ = elim (Bool-cases (str_eq n segment)) [
  | inl same ↦
      let e = eq_of_str_eq n segment same in
      let other : str_eq n name ≡ false = subst (λ x. str_eq x name ≡ false) (sym e) differ in
      rw same (rw other refl)
  | inr other ↦ elim (Bool-cases (str_eq n name)) [
    | inl here ↦ rw other (rw here refl)
    | inr further ↦ rw other (rw further (get_child-other segment name change rest differ))
  ]
]

-- What is found past the child that changes, if the change keeps it there.
find-change :
    {A : Type 0} (found : Tree → A) (segment name : Str) (change : Tree → Tree)
    (children : Children)
    → (str_eq segment name ≡ true
        → found (change (get_child name children)) ≡ found (get_child name children))
    → found (get_child name (change_child segment change children))
      ≡ found (get_child name children)
find-change found segment name change children keeps = elim (Bool-cases (str_eq segment name)) [
  | inl same ↦
      let e = eq_of_str_eq segment name same in
      subst
        (λ x.
          found (get_child x (change_child segment change children)) ≡ found (get_child x children))
        e
        (ap found (get_child-change_child segment change children)
          ∙ subst (λ x. found (change (get_child x children)) ≡ found (get_child x children))
              (sym e) (keeps same))
  | inr other ↦ ap found (get_child-other segment name change children other)
]

-- A notebook that is inserted is found under its path, whatever the tree held before.
pub find-insert :
    (segment : Str) (rest : List Str) (notebook_id : Str) (children : Children)
    → find (segment ∷ rest) (insert (segment ∷ rest) notebook_id children) ≡ some notebook_id
unfolding find insert
find-insert segment [] notebook_id children =
    rw (get_child-change_child segment (λ t. branch (some notebook_id) (children_of t)) children)
      refl
find-insert segment (next ∷ rest) notebook_id children =
    rw
      (get_child-change_child segment
        (λ t. branch (id_of t) (insert (next ∷ rest) notebook_id (children_of t))) children)
      (find-insert next rest notebook_id (children_of (get_child segment children)))

-- Inserting a notebook under one path leaves what is found under every other path as it was.
pub find-insert_other :
    (path other : List Str) (notebook_id : Str) (children : Children)
    → path ≢ other
    → find other (insert path notebook_id children) ≡ find other children
unfolding find insert
find-insert_other [] other notebook_id children differ = refl
find-insert_other (a ∷ []) [] notebook_id children differ = refl
find-insert_other (a ∷ b ∷ path) [] notebook_id children differ = refl
find-insert_other (a ∷ []) (c ∷ []) notebook_id children differ =
    find-change id_of a c (λ t. branch (some notebook_id) (children_of t)) children
      (λ same. absurd (differ (ap (λ x. x ∷ []) (eq_of_str_eq a c same))))
find-insert_other (a ∷ []) (c ∷ d ∷ other) notebook_id children differ =
    find-change (λ t. find (d ∷ other) (children_of t)) a c
      (λ t. branch (some notebook_id) (children_of t)) children (λ _. refl)
find-insert_other (a ∷ b ∷ path) (c ∷ []) notebook_id children differ =
    find-change id_of a c (λ t. branch (id_of t) (insert (b ∷ path) notebook_id (children_of t)))
      children (λ _. refl)
find-insert_other (a ∷ b ∷ path) (c ∷ d ∷ other) notebook_id children differ =
    find-change (λ t. find (d ∷ other) (children_of t)) a c
      (λ t. branch (id_of t) (insert (b ∷ path) notebook_id (children_of t))) children
      (λ same.
        find-insert_other (b ∷ path) (d ∷ other) notebook_id (children_of (get_child c children))
          (λ e. differ (
            subst (λ x. a ∷ b ∷ path ≡ x ∷ d ∷ other) (eq_of_str_eq a c same) (ap (λ l. a ∷ l) e))))
