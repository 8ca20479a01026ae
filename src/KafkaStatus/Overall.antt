-- ===== src/KafkaStatus/Overall.antt =====
-- What the states of the brokers add up to.
use golibs.Prelude.{
  ℤ, is_zero, ℕ, ◌+◌, ◌≤◌, Bool, true, false, ◌&&◌, ◌||◌, not, ◌==◌, Option, none, some, [], ◌∷◌,
  ◌≡◌, refl, ap, ap₂, ◌∙◌, Bool-cases, inl, inr, arith, Bytes, bytes_eqb, bytes_eqb_iff, codes,
  if◌then◌else◌, length, is_empty,
}
use golibs.KafkaStatus.{
  State, down_state, up_state, partial_state, unknown_state, Brokers, InternalStatus, count_states,
  parse_status, in_state, new_internal_status, refresh, is_healthy, handle_status, state_string,
}

count_in : State → Brokers → ℕ
count_in st [] = 0
count_in st (b ∷ brokers) = (if in_state st b then 1 else 0) + count_in st brokers

unfoldable pub all_in : State → Brokers → Bool
all_in st [] = true
all_in st (b ∷ brokers) = in_state st b && all_in st brokers

unfoldable pub any_in : State → Brokers → Bool
any_in st [] = false
any_in st (b ∷ brokers) = in_state st b || any_in st brokers

-- No broker is in both states.
apart : (b : Option Bytes) → in_state up_state b ≡ true → in_state down_state b ≡ false
unfolding in_state bytes_eqb
apart none h = refl
apart (some b) h =
    let e : b ≡ codes "UP" = (bytes_eqb_iff b (codes "UP")).0 h in
    ap (λ x. bytes_eqb x (codes "DOWN")) e

count_states-count_in :
    (up down : ℕ) (brokers : Brokers)
    → count_states up down brokers
      ≡ (up + count_in up_state brokers, down + count_in down_state brokers)
unfolding count_states count_in
count_states-count_in up down [] = ap₂ (λ x y. (x, y)) (omega arith) (omega arith)
count_states-count_in up down (b ∷ brokers) = elim (Bool-cases (in_state up_state b)) [
  | inl t ↦
      rw (t, apart b t)
        (count_states-count_in (up + 1) down brokers
          ∙ ap₂ (λ x y. (x, y)) (omega arith) (omega arith))
  | inr f ↦ elim (Bool-cases (in_state down_state b)) [
    | inl t ↦
        rw (f, t)
          (count_states-count_in up (down + 1) brokers
            ∙ ap₂ (λ x y. (x, y)) (omega arith) (omega arith))
    | inr g ↦
        rw (f, g)
          (count_states-count_in up down brokers ∙ ap₂ (λ x y. (x, y)) (omega arith) (omega arith))
  ]
]

count_in-bound : (st : State) (brokers : Brokers) → count_in st brokers ≤ length brokers
unfolding count_in
count_in-bound st [] = omega arith
count_in-bound st (b ∷ brokers) = ground (arith, count_in-bound st brokers)

count_in-all :
    (st : State) (brokers : Brokers) → (count_in st brokers == length brokers) ≡ all_in st brokers
unfolding count_in all_in
count_in-all st [] = refl
count_in-all st (b ∷ brokers) = ground (arith, count_in-all st brokers, count_in-bound st brokers)

count_in-any :
    (st : State) (brokers : Brokers) → (count_in st brokers == 0) ≡ not (any_in st brokers)
unfolding count_in any_in
count_in-any st [] = refl
count_in-any st (b ∷ brokers) = ground (arith, count_in-any st brokers)

-- The state of some brokers: up or down where all of them are, and there are some; unknown where none
-- of them is up or down; else partial.
pub parse_status_lem :
    (brokers : Brokers)
    → parse_status brokers ≡ (
        if is_empty brokers
        then unknown_state
        else (if all_in up_state brokers
            then up_state
            else (if all_in down_state brokers
                then down_state
                else (if any_in up_state brokers || any_in down_state brokers
                    then partial_state
                    else unknown_state))))
unfolding parse_status
parse_status_lem brokers = rw (count_states-count_in 0 0 brokers) (
    ground (
      arith,
      count_in-all up_state brokers,
      count_in-all down_state brokers,
      count_in-any up_state brokers,
      count_in-any down_state brokers,
    ))

abbrev is_down : State → Bool
is_down down_state = true
is_down _ = false

all_apart :
    (b : Option Bytes) (brokers : Brokers)
    → all_in up_state (b ∷ brokers) ≡ true
    → all_in down_state (b ∷ brokers) ≡ false
unfolding all_in
all_apart b brokers h = ground (arith, apart b, h)

down_lem :
    (brokers : Brokers)
    → is_down (parse_status brokers) ≡ (not (is_empty brokers) && all_in down_state brokers)
down_lem [] = rw (parse_status_lem []) refl
down_lem (b ∷ brokers) = rw (parse_status_lem (b ∷ brokers)) (ground (arith, all_apart b brokers))

healthy_lem :
    (st : State) (consuming : Bool) (c : ℤ)
    → handle_status (record {
      status = state_string st;
      code = c;
      consuming = state_string (if consuming then up_state else down_state);
    })
      ≡ (if consuming && (is_zero c && not (is_down st)) then 200 else 503)
unfolding handle_status is_healthy bytes_eqb
healthy_lem down_state true c = ground arith
healthy_lem down_state false c = refl
healthy_lem up_state true c = ground arith
healthy_lem up_state false c = refl
healthy_lem partial_state true c = ground arith
healthy_lem partial_state false c = refl
healthy_lem unknown_state true c = ground arith
healthy_lem unknown_state false c = refl

-- Behind a refresh with the status of new statistics and the code c, HandleStatus answers 200 exactly
-- if c is no error, there is consuming, and not all brokers are down; without any broker it does too.
pub handle_status-refresh :
    (brokers : Brokers) (consuming : Bool) (c : ℤ) (s : InternalStatus)
    → handle_status (refresh (some (new_internal_status brokers consuming)) c s) ≡ (
        if consuming && (is_zero c && not (not (is_empty brokers) && all_in down_state brokers))
        then 200
        else 503)
unfolding refresh new_internal_status
handle_status-refresh brokers consuming c s =
    healthy_lem (parse_status brokers) consuming c
    ∙ ap (λ x. if consuming && (is_zero c && not x) then 200 else 503) (down_lem brokers)
