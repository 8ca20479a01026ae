-- ===== src/Access/Review.antt =====
-- What a review allows.
use golibs.Prelude.{
  Bool, true, false, ◌||◌, ◌&&◌, none, List, [], ◌∷◌, ◌++◌, Bytes, ◌≡◌, refl, arith, All,
}
use golibs.Exec.{ok}
use golibs.Access.Node.{Node, empty, find, find_all, insert_all}
use golibs.Access.Node.Laws.{NoLonger, any_matches, find-insert_all, find-empty}
use golibs.Access.{
  Scope, SubjectAccessReview, grant_all, match_scope, review_sar, get_trust, review_of,
  new_subject_access_review,
}

-- Some sequence of labels of some scope matches.
unfoldable pub granted : List Scope → List Bytes → Bool
granted [] q = false
granted (s ∷ ss) q = any_matches s.as_labels q || granted ss q

-- Every requested sequence is granted.
unfoldable pub all_granted : List Scope → List (List Bytes) → Bool
unfolding granted
all_granted allowed [] = true
all_granted allowed (q ∷ qs) = granted allowed q && all_granted allowed qs

pub all_granted-append :
    (allowed : List Scope) (qs rs : List (List Bytes))
    → all_granted allowed (qs ++ rs) ≡ (all_granted allowed qs && all_granted allowed rs)
unfolding all_granted
all_granted-append allowed [] rs = refl
all_granted-append allowed (q ∷ qs) rs = ground (arith, all_granted-append allowed qs rs)

-- Every sequence of the scopes is at least as long as `q`.
abbrev pub AllReach : List Bytes → List Scope → Type 0
AllReach q = All (λ s. All (NoLonger q) s.as_labels)

abbrev pub HasLabel : List Bytes → Type 0
HasLabel [] = ⊥
HasLabel (b ∷ q) = Unit

-- A request that the granted scopes are deep enough for.
abbrev pub FitsRequest : List Scope → List Bytes → Type 0
FitsRequest allowed q = HasLabel q × AllReach q allowed

find-grant_all :
    (ss : List Scope) (q : List Bytes) (n : Node)
    → AllReach q ss
    → find q (grant_all ss n) ≡ (find q n || granted ss q)
unfolding grant_all granted
find-grant_all [] q n h = ground arith
find-grant_all (s ∷ ss) q n h =
    ground (
      arith,
      find-grant_all ss q (insert_all s.as_labels n) h.1,
      find-insert_all s.as_labels q n h.0,
    )

find-granted :
    (allowed : List Scope) (q : List Bytes)
    → FitsRequest allowed q
    → find q (grant_all allowed empty) ≡ granted allowed q
find-granted allowed [] h = absurd h.0
find-granted allowed (b ∷ q) h =
    ground (arith, find-grant_all allowed (b ∷ q) empty h.1, find-empty b q)

find_all-granted :
    (allowed : List Scope) (qs : List (List Bytes))
    → All (FitsRequest allowed) qs
    → find_all qs (grant_all allowed empty) ≡ all_granted allowed qs
unfolding find_all all_granted
find_all-granted allowed [] h = refl
find_all-granted allowed (q ∷ qs) h =
    ground (arith, find-granted allowed q h.0, find_all-granted allowed qs h.1)

-- MatchScope, where no granted sequence of labels is shorter than a requested one and none of
-- those is empty: the request is allowed exactly if each of its sequences is matched, label by
-- label and with wildcards, by one granted sequence of one of the scopes.
pub match_scope-granted :
    (allowed : List Scope) (requested : Scope)
    → All (FitsRequest allowed) requested.as_labels
    → match_scope allowed requested ≡ all_granted allowed requested.as_labels
unfolding match_scope
match_scope-granted allowed requested h = find_all-granted allowed requested.as_labels h

nothing_granted :
    (scope : Scope) (b : Bytes) (q : List Bytes) (qs : List (List Bytes))
    → scope.as_labels ≡ (b ∷ q) ∷ qs
    → match_scope [] scope ≡ false
unfolding match_scope
nothing_granted scope b q qs l = rw l (rw (find-empty b q))

-- With no trust in the context nothing is allowed: a review of a valid scope that asks for
-- something succeeds, and its status says no, in the flag and in the reason.
pub no_trust_denied :
    (scope : Scope) (b : Bytes) (q : List Bytes) (qs : List (List Bytes))
    → scope.validate ≡ none
    → scope.as_labels ≡ (b ∷ q) ∷ qs
    → (r : SubjectAccessReview) × (new_subject_access_review none scope ≡ ok r)
      × (r.status.allowed ≡ false)
      × (r.status.reason.can ≡ false)
unfolding new_subject_access_review review_sar match_scope get_trust
no_trust_denied scope b q qs v l = (
  review_of (get_trust none) scope,
  ground arith,
  nothing_granted scope b q qs l,
  nothing_granted scope b q qs l,
)
