-- ===== src/Store/Options/Exhausted.antt =====
-- When a slice of options counts as used up.
use golibs.Prelude.{false, none, ◌≡◌, refl, ◌↔◌, arith}
use golibs.Store.Options.{
  StoreOption, StoreOptions, nil_option, nested, nil, cons, remains, contains_not_nil, any_remains,
  check_options_exhausted,
}

-- Only nil interfaces.
abbrev pub AllNil : StoreOptions → Type 0
AllNil nil = Unit
AllNil (cons x rest) = (x ≡ nil_option) × AllNil rest

-- A nil interface, or a slice of nil interfaces.
abbrev pub IsSpent : StoreOption → Type 0
IsSpent nil_option = Unit
IsSpent (nested xs) = AllNil xs
IsSpent _ = ⊥

abbrev pub AllSpent : StoreOptions → Type 0
AllSpent nil = Unit
AllSpent (cons x rest) = IsSpent x × AllSpent rest

contains_not_nil→AllNil : (xs : StoreOptions) → contains_not_nil xs ≡ false → AllNil xs
unfolding contains_not_nil
contains_not_nil→AllNil nil h = tt
contains_not_nil→AllNil (cons nil_option rest) h = (refl, contains_not_nil→AllNil rest h)
contains_not_nil→AllNil (cons x rest) h = cc

AllNil→contains_not_nil : (xs : StoreOptions) → AllNil xs → contains_not_nil xs ≡ false
unfolding contains_not_nil
AllNil→contains_not_nil nil h = refl
AllNil→contains_not_nil (cons x rest) h = rw h.0 (AllNil→contains_not_nil rest h.1)

remains→IsSpent : (x : StoreOption) → remains x ≡ false → IsSpent x
remains→IsSpent nil_option h = tt
remains→IsSpent (nested xs) h = contains_not_nil→AllNil xs h
remains→IsSpent _ h = cc

IsSpent→remains : (x : StoreOption) → IsSpent x → remains x ≡ false
IsSpent→remains nil_option h = refl
IsSpent→remains (nested xs) h = AllNil→contains_not_nil xs h
IsSpent→remains _ h = absurd h

any_remains→AllSpent : (xs : StoreOptions) → any_remains xs ≡ false → AllSpent xs
unfolding any_remains
any_remains→AllSpent nil h = tt
any_remains→AllSpent (cons x rest) h =
    (remains→IsSpent x (ground arith), any_remains→AllSpent rest (ground arith))

AllSpent→any_remains : (xs : StoreOptions) → AllSpent xs → any_remains xs ≡ false
unfolding any_remains
AllSpent→any_remains nil h = refl
AllSpent→any_remains (cons x rest) h = rw (IsSpent→remains x h.0) (AllSpent→any_remains rest h.1)

-- CheckOptionsExhausted accepts a slice exactly if each of its elements is a nil interface or a
-- slice that holds nothing but nil interfaces.
pub check_options_exhausted_iff :
    (xs : StoreOptions) → (check_options_exhausted xs ≡ none) ↔ AllSpent xs
unfolding check_options_exhausted
check_options_exhausted_iff xs =
    (λ h. any_remains→AllSpent xs (ground arith), λ h. rw (AllSpent→any_remains xs h))
