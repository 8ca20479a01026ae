-- ===== src/Graceful/All/Moves.antt =====
-- What every step of RunAllBackground keeps.
use mathlib.Core.List.{Perm, perm_middle, perm_append_singleton}
use mathlib.Core.List.Perm
use golibs.Prelude.{
  ℕ, ◌+◌, Bool, true, false, not, ◌||◌, ◌&&◌, none, some, List, [], ◌∷◌, ◌++◌, append_assoc, ◌≡◌,
  refl, sym, ◌∙◌, ap, subst, arith, length, length-append,
}
use golibs.Errors.{Error}
use golibs.Graceful.All.{
  Task, running, failed, sending, leaving, over, AllState, all_over, Step, finish, fail, cancel,
  send, done, receive, parent, close, cancel_last,
}
use golibs.Graceful.All.Tasks.{
  sent_by, has_returned_error, past_cancel, errors_of, any, errors_of-append, any-append, not_over,
}

pub record Holds (fail_fast : Bool) (k : ℕ) (t : AllState) : Type 0 where
  pub size : length t.tasks ≡ k
  pub capacity : t.capacity ≡ k
  pub sent : Perm (t.received ++ t.buffer) (errors_of t.tasks)
  pub count : length t.received + length t.buffer ≡ length (errors_of t.tasks)
  pub closed : t.closed ≡ true → all_over t.tasks ≡ true
  pub only : (not t.canceled || (t.closed || (fail_fast && any has_returned_error t.tasks))) ≡ true
  pub due : (not (fail_fast && any past_cancel t.tasks) || t.canceled) ≡ true

only_moved :
    (c f cl a b px py r : Bool)
    → a ≡ (px || r)
    → b ≡ (py || r)
    → (not px || py) ≡ true
    → (not c || (cl || (f && a))) ≡ true
    → (not c || (cl || (f && b))) ≡ true
only_moved c f cl a b px py r p q m h = ground (arith, p, q, m, h)

due_moved :
    (c d f a b px py r : Bool)
    → a ≡ (px || r)
    → b ≡ (py || r)
    → (not py || (px || (not f || d))) ≡ true
    → (not c || d) ≡ true
    → (not (f && a) || c) ≡ true
    → (not (f && b) || d) ≡ true
due_moved c d f a b px py r p q m k h = ground (arith, p, q, m, k, h)

length-moved :
    (before after : List Task) (x y : Task)
    → length (before ++ x ∷ after) ≡ length (before ++ y ∷ after)
length-moved before after x y =
    length-append before (x ∷ after) ∙ sym (length-append before (y ∷ after))

module _ {fail_fast : Bool} {k : ℕ} (t : AllState) (before after : List Task) (x y : Task)
    (at : t.tasks ≡ before ++ x ∷ after) (h : Holds fail_fast k t) where
  same_errors : sent_by x ≡ sent_by y → errors_of t.tasks ≡ errors_of (before ++ y ∷ after)
  same_errors s =
      ap errors_of at
      ∙ errors_of-append before after x
      ∙ ap (λ es. errors_of before ++ (es ++ errors_of after)) s
      ∙ sym (errors_of-append before after y)

  still_only :
      (not (has_returned_error x) || has_returned_error y) ≡ true
      → (not t.canceled
          || (t.closed || (fail_fast && any has_returned_error (before ++ y ∷ after))))
        ≡ true
  still_only m =
      only_moved t.canceled fail_fast t.closed (any has_returned_error t.tasks) _
        (has_returned_error x) (has_returned_error y)
        (any has_returned_error before || any has_returned_error after)
        (ap (any has_returned_error) at ∙ any-append has_returned_error before after x)
        (any-append has_returned_error before after y) m h.only

  still_due :
      (d : Bool)
      → (not (past_cancel y) || (past_cancel x || (not fail_fast || d))) ≡ true
      → (not t.canceled || d) ≡ true
      → (not (fail_fast && any past_cancel (before ++ y ∷ after)) || d) ≡ true
  still_due d m c =
      due_moved t.canceled d fail_fast (any past_cancel t.tasks) _ (past_cancel x) (past_cancel y)
        (any past_cancel before || any past_cancel after)
        (ap (any past_cancel) at ∙ any-append past_cancel before after x)
        (any-append past_cancel before after y) m c h.due

  -- A goroutine moves on, and sends nothing.
  Holds-moved :
      all_over (x ∷ []) ≡ false
      → sent_by x ≡ sent_by y
      → (not (has_returned_error x) || has_returned_error y) ≡ true
      → (not (past_cancel y) || past_cancel x) ≡ true
      → Holds fail_fast k (record t { tasks = before ++ y ∷ after })
  Holds-moved o s m p = record {
    size = length-moved before after y x ∙ sym (ap length at) ∙ h.size;
    capacity = h.capacity;
    sent = subst (Perm (t.received ++ t.buffer)) (same_errors s) h.sent;
    count = h.count ∙ ap length (same_errors s);
    closed = λ c. absurd (cc (sym (h.closed c), ap all_over at, not_over before after x o));
    only = still_only m;
    due = still_due t.canceled (ground arith) (ground arith);
  }

sends :
    (received buffer : List Error) (before after : List Task) (e : Error)
    → Perm (received ++ buffer) (errors_of (before ++ sending e ∷ after))
    → Perm (received ++ (buffer ++ e ∷ [])) (errors_of (before ++ leaving (some e) ∷ after))
sends received buffer before after e p =
    let errors = subst (Perm (received ++ buffer)) (errors_of-append before after (sending e)) p in
    rw
      (
        errors_of-append before after (leaving (some e)),
        sym (append_assoc received buffer (e ∷ [])),
      )
      (Perm.trans (perm_append_singleton e (received ++ buffer)) (
        Perm.trans (Perm.cons e errors)
          (Perm.symm (perm_middle (errors_of before) (errors_of after)))))

counts :
    (n : ℕ) (buffer : List Error) (before after : List Task) (e : Error)
    → n + length buffer ≡ length (errors_of (before ++ sending e ∷ after))
    → n + length (buffer ++ e ∷ []) ≡ length (errors_of (before ++ leaving (some e) ∷ after))
counts n buffer before after e h = omega (
  arith,
  h,
  length-append buffer (e ∷ []),
  ap length (errors_of-append before after (sending e)),
  ap length (errors_of-append before after (leaving (some e))),
  length-append (errors_of before) (errors_of after),
  length-append (errors_of before) (e ∷ errors_of after),
)

only_canceled :
    (c f cl b r : Bool)
    → b ≡ (true || r)
    → (not c || (cl || (f && b))) ≡ true
    → (not (c || f) || (cl || (f && b))) ≡ true
only_canceled c f cl b r p h = ground (arith, p, h)

due_canceled : (c f : Bool) → (not true || (false || (not f || (c || f)))) ≡ true
due_canceled c f = ground arith

kept_canceled : (c f : Bool) → (not c || (c || f)) ≡ true
kept_canceled c f = ground arith

module _ {fail_fast : Bool} {k : ℕ} where
  pub Holds-Step : {t u : AllState} → Step fail_fast t u → Holds fail_fast k t → Holds fail_fast k u
  Holds-Step (finish t before after at) h =
      Holds-moved t before after running (leaving none) at h refl refl refl refl
  Holds-Step (fail t before after e at) h =
      Holds-moved t before after running (failed e) at h refl refl refl refl
  Holds-Step (cancel t before after e at) h = record {
    size = length-moved before after (sending e) (failed e) ∙ sym (ap length at) ∙ h.size;
    capacity = h.capacity;
    sent =
        subst (Perm (t.received ++ t.buffer))
          (same_errors t before after (failed e) (sending e) at h refl) h.sent;
    count = h.count ∙ ap length (same_errors t before after (failed e) (sending e) at h refl);
    closed =
        λ c. absurd (cc (sym (h.closed c), ap all_over at, not_over before after (failed e) refl));
    only =
        only_canceled t.canceled fail_fast t.closed _
          (any has_returned_error before || any has_returned_error after)
          (any-append has_returned_error before after (sending e))
          (still_only t before after (failed e) (sending e) at h refl);
    due =
        still_due t before after (failed e) (sending e) at h (t.canceled || fail_fast)
          (due_canceled t.canceled fail_fast) (kept_canceled t.canceled fail_fast);
  }
  Holds-Step (send t before after e at room) h = record {
    size = length-moved before after (leaving (some e)) (sending e) ∙ sym (ap length at) ∙ h.size;
    capacity = h.capacity;
    sent =
        sends t.received t.buffer before after e
          (subst (λ ts. Perm (t.received ++ t.buffer) (errors_of ts)) at h.sent);
    count =
        counts (length t.received) t.buffer before after e
          (h.count ∙ ap (λ ts. length (errors_of ts)) at);
    closed =
        λ c. absurd (cc (sym (h.closed c), ap all_over at, not_over before after (sending e) refl));
    only = still_only t before after (sending e) (leaving (some e)) at h refl;
    due =
        still_due t before after (sending e) (leaving (some e)) at h t.canceled refl (ground arith);
  }
  Holds-Step (done t before after none at) h =
      Holds-moved t before after (leaving none) (over none) at h refl refl refl refl
  Holds-Step (done t before after (some e) at) h =
      Holds-moved t before after (leaving (some e)) (over (some e)) at h refl refl refl refl
  Holds-Step (receive t e rest at) h = record {
    size = h.size;
    capacity = h.capacity;
    sent =
        subst (λ xs. Perm xs (errors_of t.tasks))
          (ap (λ b. t.received ++ b) at ∙ sym (append_assoc t.received (e ∷ []) rest)) h.sent;
    count = omega (arith, h.count, ap length at, length-append t.received (e ∷ []));
    closed = h.closed;
    only = h.only;
    due = h.due;
  }
  Holds-Step (parent t) h = record {
    size = h.size;
    capacity = h.capacity;
    sent = h.sent;
    count = h.count;
    closed = h.closed;
    only = h.only;
    due = h.due;
  }
  Holds-Step (close t o c) h = record {
    size = h.size;
    capacity = h.capacity;
    sent = h.sent;
    count = h.count;
    closed = λ _. o;
    only = ground arith;
    due = h.due;
  }
  Holds-Step (cancel_last t c) h = record {
    size = h.size;
    capacity = h.capacity;
    sent = h.sent;
    count = h.count;
    closed = h.closed;
    only = rw c refl;
    due = ground arith;
  }
