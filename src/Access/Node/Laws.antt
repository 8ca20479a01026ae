-- ===== src/Access/Node/Laws.antt =====
-- What a tree of granted labels grants: an entry of the tree counts as the list of its labels.
use golibs.Prelude.{
  Bool, true, false, ◌&&◌, ◌||◌, Option, none, some, List, [], ◌∷◌, ◌++◌, Bytes, bytes_eqb, ◌≡◌,
  refl, sym, ◌∙◌, arith, if◌then◌else◌, bytes_eqb_iff, Option-cases, inl, inr, bytes_key, All,
}
use golibs.Access.Node.{
  Node, empty, entry, wildcard, get, set, insert, insert_new, find, insert_all, has_entries,
}

-- A granted sequence of labels matches a requested one that is no longer, label by label: each
-- granted label is the requested one or a wildcard.
unfoldable pub matches : List Bytes → List Bytes → Bool
matches l [] = true
matches [] (b ∷ q) = false
matches (a ∷ l) (b ∷ q) = (bytes_eqb a b || bytes_eqb a wildcard) && matches l q

-- `q` is no longer than `l`.
abbrev pub NoLonger : List Bytes → List Bytes → Type 0
NoLonger [] l = Unit
NoLonger (b ∷ q) [] = ⊥
NoLonger (b ∷ q) (a ∷ l) = NoLonger q l

get-set :
    (l k : Bytes) (c n : Node) → get k (set l c n) ≡ (if bytes_eqb l k then some c else get k n)
unfolding get set
get-set l k c empty = refl
get-set l k c (entry i d rest) =
    ground (arith, bytes_eqb_iff i l, bytes_eqb_iff i k, bytes_eqb_iff l k, get-set l k c rest)

-- What the tree grants under one label.
abbrev hit : Option Node → List Bytes → Bool
hit none q = false
hit (some c) q = find q c

find-hit :
    (b : Bytes) (q : List Bytes) (n : Node)
    → find (b ∷ q) n ≡ (hit (get b n) q || hit (get wildcard n) q)
unfolding find
find-hit b q n = ground arith

matches-nil : (l : List Bytes) → matches l [] ≡ true
unfolding matches
matches-nil [] = refl
matches-nil (a ∷ l) = refl

pub find-empty : (b : Bytes) (q : List Bytes) → find (b ∷ q) empty ≡ false
unfolding find get
find-empty b q = refl

-- The tree with a subtree for `a` in place of the one it had.
under_known :
    (a b : Bytes) (l q : List Bytes) (c n : Node)
    → get a n ≡ some c
    → find q (insert l c) ≡ (find q c || matches l q)
    → find (b ∷ q) (set a (insert l c) n) ≡ (find (b ∷ q) n || matches (a ∷ l) (b ∷ q))
unfolding matches
under_known a b l q c n e ih = ground (
  arith,
  find-hit b q (set a (insert l c) n),
  find-hit b q n,
  get-set a b (insert l c) n,
  get-set a wildcard (insert l c) n,
  bytes_eqb_iff a b,
  bytes_eqb_iff a wildcard,
)

-- A label that the tree does not have, and that is not the last.
under_new :
    (a b : Bytes) (l q : List Bytes) (c n : Node)
    → get a n ≡ none
    → find q c ≡ matches l q
    → find (b ∷ q) (set a c n) ≡ (find (b ∷ q) n || matches (a ∷ l) (b ∷ q))
unfolding matches
under_new a b l q c n e ih = ground (
  arith,
  find-hit b q (set a c n),
  find-hit b q n,
  get-set a b c n,
  get-set a wildcard c n,
  bytes_eqb_iff a b,
  bytes_eqb_iff a wildcard,
)

-- The last label, which may be a wildcard or be covered by one.
under_last :
    (a b : Bytes) (n : Node)
    → get a n ≡ none
    → find (b ∷ []) (insert_new a [] (get wildcard n) empty n)
      ≡ (find (b ∷ []) n || matches (a ∷ []) (b ∷ []))
unfolding matches find
under_last a b empty e = ground (
  arith,
  get-set a b empty empty,
  get-set a wildcard empty empty,
  bytes_eqb_iff a b,
  bytes_eqb_iff a wildcard,
)
under_last a b n e = ground (
  arith,
  get-set a b empty n,
  get-set a wildcard empty n,
  get-set a b empty empty,
  get-set a wildcard empty empty,
  bytes_eqb_iff a b,
  bytes_eqb_iff a wildcard,
)

insert_new-not_last :
    (a x : Bytes) (l : List Bytes) (w : Option Node) (c n : Node)
    → insert_new a (x ∷ l) w c n ≡ set a c n
insert_new-not_last a x l w c n = ground arith

find-empty_or : (l q : List Bytes) → (find q empty || matches l q) ≡ matches l q
unfolding find get
find-empty_or l [] = sym (matches-nil l)
find-empty_or l (b ∷ q) = refl

insert-known :
    (a : Bytes) (l : List Bytes) (c n : Node)
    → get a n ≡ some c
    → insert (a ∷ l) n ≡ set a (insert l c) n
unfolding insert
insert-known a l c n e = rw (e, insert)

insert-unknown :
    (a : Bytes) (l : List Bytes) (n : Node)
    → get a n ≡ none
    → insert (a ∷ l) n ≡ insert_new a l (get wildcard n) (insert l empty) n
unfolding insert
insert-unknown a l n e = rw (e, insert)

insert-nil : (n : Node) → insert [] n ≡ n
unfolding insert
insert-nil n = refl

find-nil : (n : Node) → find [] n ≡ true
unfolding find
find-nil n = refl

-- A request that is no longer than a granted sequence is granted after an insert of that sequence
-- exactly if it was granted before, or the sequence matches it.
pub find-insert :
    (l q : List Bytes) (n : Node) → NoLonger q l → find q (insert l n) ≡ (find q n || matches l q)
find-insert l [] n h = rw (find-nil (insert l n), find-nil n)
find-insert (a ∷ []) (b ∷ []) n h = elim (Option-cases (get a n)) [
  | inl e ↦ rw (insert-unknown a [] n e, insert-nil empty) (under_last a b n e)
  | inr (c, e) ↦ rw (insert-known a [] c n e) (under_known a b [] [] c n e (find-insert [] [] c tt))
]
find-insert (a ∷ x ∷ l) (b ∷ q) n h = elim (Option-cases (get a n)) [
  | inl e ↦
      rw
        (
          insert-unknown a (x ∷ l) n e,
          insert_new-not_last a x l (get wildcard n) (insert (x ∷ l) empty) n,
        )
        (under_new a b (x ∷ l) q (insert (x ∷ l) empty) n e
          (find-insert (x ∷ l) q empty h ∙ find-empty_or (x ∷ l) q))
  | inr (c, e) ↦
      rw (insert-known a (x ∷ l) c n e)
        (under_known a b (x ∷ l) q c n e (find-insert (x ∷ l) q c h))
]
find-insert (a ∷ []) (b ∷ y ∷ q) n h = absurd h
find-insert [] (b ∷ q) n h = absurd h

-- Some sequence of the list matches.
unfoldable pub any_matches : List (List Bytes) → List Bytes → Bool
unfolding matches
any_matches [] q = false
any_matches (l ∷ ls) q = matches l q || any_matches ls q

-- Where no inserted sequence is shorter than the requested one: the tree grants the request exactly
-- if one of the inserted sequences matches it, or if it granted the request before, whatever the
-- order of the inserts and however many labels were condensed into a wildcard.
pub find-insert_all :
    (ls : List (List Bytes)) (q : List Bytes) (n : Node)
    → All (NoLonger q) ls
    → find q (insert_all ls n) ≡ (find q n || any_matches ls q)
unfolding insert_all any_matches
find-insert_all [] q n h = ground arith
find-insert_all (l ∷ ls) q n h =
    ground (arith, find-insert_all ls q (insert l n) h.1, find-insert l q n h.0)

pub any_matches-append :
    (ls ms : List (List Bytes)) (q : List Bytes)
    → any_matches (ls ++ ms) q ≡ (any_matches ls q || any_matches ms q)
unfolding any_matches
any_matches-append [] ms q = refl
any_matches-append (l ∷ ls) ms q = ground (arith, any_matches-append ls ms q)

lone_wildcard : (a b : Bytes) (q : List Bytes) → find (a ∷ b ∷ q) (set wildcard empty empty) ≡ false
unfolding get
lone_wildcard a b q = ground (
  arith,
  find-hit a (b ∷ q) (set wildcard empty empty),
  get-set wildcard a empty empty,
  get-set wildcard wildcard empty empty,
  find-empty b q,
)

-- A grant of one wildcard label, at a node that has entries and no wildcard yet, takes away all
-- that the node granted to requests of two labels and more.
pub insert-wildcard_drops :
    (n : Node) (a b : Bytes) (q : List Bytes)
    → get wildcard n ≡ none
    → has_entries n ≡ true
    → find (a ∷ b ∷ q) (insert (wildcard ∷ []) n) ≡ false
unfolding bytes_eqb
insert-wildcard_drops n a b q e h =
    rw (insert-unknown wildcard [] n e, insert-nil empty, e, h) (lone_wildcard a b q)
