-- ===== src/Errors/Status.antt =====
-- The conversion between status codes and errors.
use golibs.Prelude.{
  ℕ, zero, suc, ◌≡◌, refl, ◌∙◌, Bool, true, false, ◌&&◌, Option, none, some, List, [], ◌∷◌, arith,
  ltb, ◌==◌, Bool-cases, inl, inr, if◌then◌else◌,
}
use golibs.Errors.{
  Error, http_status, status, sentinel, foreign_wrap, api_status, wrap, join, has_code, is_error,
  find_status, err_as_status_code, status_code_as_err, status_codes, or_unknown,
}

-- No error of the chain wraps two others.
abbrev pub IsChain : Error → Type 0
IsChain (foreign_wrap n r e) = IsChain e
IsChain (wrap e) = IsChain e
IsChain (join e f) = ⊥
IsChain _ = Unit

-- The code that a chain carries.
unfoldable pub code_of : Error → Option ℕ
code_of (status c) = some c
code_of (foreign_wrap n r e) = code_of e
code_of (wrap e) = code_of e
code_of _ = none

abbrev pub carries : Option ℕ → ℕ → Bool
carries none d = false
carries (some c) d = c == d

is_error-code_of : (e : Error) (d : ℕ) → IsChain e → is_error e (status d) ≡ carries (code_of e) d
unfolding is_error code_of
is_error-code_of (status c) d h = ground arith
is_error-code_of (sentinel s) d h = ground arith
is_error-code_of (foreign_wrap n r e) d h = is_error-code_of e d h
is_error-code_of (wrap e) d h = is_error-code_of e d h
is_error-code_of (join e f) d h = absurd h
is_error-code_of _ d h = refl

-- The status that a code stands for: itself if the table has it, else 500.
abbrev pub known : List ℕ → Option ℕ → ℕ
known order none = 500
known order (some c) = if has_code order c then c else 500

find_status-known :
    (order : List ℕ) (e : Error) → IsChain e → find_status order e ≡ known order (code_of e)
unfolding find_status has_code
find_status-known [] e h = ground arith
find_status-known (c ∷ cs) e h = ground (arith, is_error-code_of e c h, find_status-known cs e h)

-- A Kubernetes error counts only at the top of the chain.
abbrev pub top_code : Error → Option ℕ
top_code (api_status c) = some c
top_code e = code_of e

-- A visit of the table in another order.
abbrev pub Reorders : List ℕ → Type 0
Reorders order = (c : ℕ) → has_code order c ≡ has_code status_codes c

known-reorder :
    (order : List ℕ) (o : Option ℕ) → Reorders order → known order o ≡ known status_codes o
known-reorder order none same = refl
known-reorder order (some c) same = rw (same c)

low_code : (c : ℕ) → (ltb 0 c && ltb c 400) ≡ true → has_code status_codes c ≡ false
unfolding has_code
low_code c h = ground arith

of_api :
    (order : List ℕ) (c : ℕ)
    → Reorders order
    → or_unknown order (status_code_as_err c) ≡ known status_codes (some c)
unfolding or_unknown status_code_as_err code_of
of_api order c same = elim (Bool-cases (ltb 0 c && ltb c 400)) [
  | inl e ↦ rw (e, status_code_as_err, or_unknown, low_code c e)
  | inr e ↦
      rw (e, status_code_as_err)
        (elim (Bool-cases (has_code status_codes c)) [
          | inl k ↦ rw k (find_status-known order (status c) tt ∙ rw (same c, k))
          | inr k ↦ rw k (find_status-known order http_status tt)
        ])
]

-- An error that wraps at most one other at each level has the status code that it carries, if the
-- table has that code, and 500 otherwise: however deep the wrapping, and whatever the order in
-- which the table is visited. A Kubernetes error at the top counts with its own code.
pub err_as_status_code-chain :
    (order : List ℕ) (e : Error)
    → Reorders order
    → IsChain e
    → err_as_status_code order (some e) ≡ known status_codes (top_code e)
unfolding err_as_status_code
err_as_status_code-chain order (api_status c) same h = of_api order c same
err_as_status_code-chain order http_status same h =
    find_status-known order http_status h ∙ known-reorder order _ same
err_as_status_code-chain order e same h = find_status-known order e h ∙ known-reorder order _ same

-- `fmt.Errorf("…%w", e)`, n times.
abbrev pub wraps_by : ℕ → Error → Error
wraps_by zero e = e
wraps_by (suc n) e = wrap (wraps_by n e)

wraps_by-code_of : (n : ℕ) (e : Error) → code_of (wraps_by n e) ≡ code_of e
unfolding code_of
wraps_by-code_of zero e = refl
wraps_by-code_of (suc n) e = wraps_by-code_of n e

wraps_by-IsChain : (n c : ℕ) → IsChain (wraps_by n (status c))
wraps_by-IsChain zero c = tt
wraps_by-IsChain (suc n) c = wraps_by-IsChain n c

wraps_by-top_code : (n c : ℕ) → top_code (wraps_by n (status c)) ≡ some c
unfolding code_of
wraps_by-top_code zero c = refl
wraps_by-top_code (suc n) c = wraps_by-code_of n (status c)

-- The error of a code of the table, wrapped any number of times, has that code.
pub wrap_round_trip :
    (order : List ℕ) (n c : ℕ)
    → Reorders order
    → has_code status_codes c ≡ true
    → err_as_status_code order (some (wraps_by n (status c))) ≡ c
wrap_round_trip order n c same h =
    err_as_status_code-chain order (wraps_by n (status c)) same (wraps_by-IsChain n c)
    ∙ rw (wraps_by-top_code n c, h)

-- A code turned into an error and back: 1 to 399 are no error and come back as 200, a code of the
-- table comes back as itself, and any other as 500, whatever the order in which the table is visited.
pub status_code_round_trip :
    (order : List ℕ) (c : ℕ)
    → Reorders order
    → err_as_status_code order (status_code_as_err c)
      ≡ (if ltb 0 c && ltb c 400 then 200 else (if has_code status_codes c then c else 500))
unfolding status_code_as_err err_as_status_code code_of
status_code_round_trip order c same = elim (Bool-cases (ltb 0 c && ltb c 400)) [
  | inl e ↦ rw (e, status_code_as_err, err_as_status_code)
  | inr e ↦
      rw (e, status_code_as_err)
        (elim (Bool-cases (has_code status_codes c)) [
          | inl k ↦ rw k (err_as_status_code-chain order (status c) same tt ∙ rw k)
          | inr k ↦ rw k (err_as_status_code-chain order http_status same tt)
        ])
]
