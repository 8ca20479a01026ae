-- ===== src/Access/Node.antt =====
-- pkg/access/node.go: the tree of granted labels. A Node is a map from labels to Nodes; here it is
-- the list of its entries, each with its subtree. `insert` returns the tree that the receiver is
-- afterwards; the node that Insert returns, which no caller in the repository reads, is left out.
pub mod Laws
use golibs.Prelude.{
  Bool, true, false, ◌&&◌, ◌||◌, Option, none, some, List, [], ◌∷◌, Bytes, codes, bytes_eqb,
  if◌then◌else◌, is_some,
}

pub data Node : Type 0 where
  empty : Node
  entry : Bytes → Node → Node → Node

-- scope.Wildcard
abbrev pub wildcard : Bytes
wildcard = codes "*"

-- node, ok := n[label]
unfoldable pub get : Bytes → Node → Option Node
unfolding bytes_eqb
get l empty = none
get l (entry k child rest) = if bytes_eqb k l then some child else get l rest

-- n[label] = node
unfoldable pub set : Bytes → Node → Node → Node
unfolding bytes_eqb
set l c empty = entry l c empty
set l c (entry k child rest) =
    if bytes_eqb k l then entry k c rest else entry k child (set l c rest)

abbrev pub is_last : List Bytes → Bool
is_last [] = true
is_last (x ∷ xs) = false

abbrev pub has_entries : Node → Bool
has_entries empty = false
has_entries (entry k child rest) = true

-- The new entry of a label. A wildcard that is the last label takes the place of all entries.
abbrev pub add_label : Bytes → List Bytes → Node → Node → Node
add_label label rest node n =
    if bytes_eqb label wildcard && is_last rest && has_entries n
    then set label node empty
    else set label node n

-- Insert where the label has no entry yet.
abbrev pub insert_new : Bytes → List Bytes → Option Node → Node → Node → Node
insert_new label rest wild node n =
    if is_last rest && is_some wild then n else add_label label rest node n

-- Insert
unfoldable pub insert : List Bytes → Node → Node
unfolding get set
insert [] n = n
insert (label ∷ rest) n = elim (get label n) [
  | some child ↦ set label (insert rest child) n
  | none ↦ insert_new label rest (get wildcard n) (insert rest empty) n
]

-- Find
unfoldable pub find : List Bytes → Node → Bool
unfolding get
find [] n = true
find (label ∷ rest) n =
    let wild : Bool = elim (get wildcard n) [ some node ↦ find rest node | none ↦ false ] in
    let known : Bool = elim (get label n) [ some node ↦ find rest node | none ↦ false ] in
    if known then true else wild

-- The loop of MatchScope over the granted labels.
unfoldable pub insert_all : List (List Bytes) → Node → Node
unfolding insert
insert_all [] n = n
insert_all (labels ∷ more) n = insert_all more (insert labels n)

-- The loop of MatchScope over the requested labels.
unfoldable pub find_all : List (List Bytes) → Node → Bool
unfolding find
find_all [] n = true
find_all (labels ∷ more) n = let rest = find_all more n in if find labels n then rest else false
