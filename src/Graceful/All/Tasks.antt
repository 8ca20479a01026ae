-- ===== src/Graceful/All/Tasks.antt =====
-- What the goroutines of RunAllBackground have sent, and which of them have returned an error.
use golibs.Prelude.{
  suc, ◌<◌, Bool, true, false, not, ◌||◌, Option, none, some, is_some, List, [], ◌∷◌, ◌++◌,
  append_assoc, ◌≡◌, refl, sym, ◌∙◌, ap, arith, length, is_empty,
}
use golibs.Errors.{Error}
use golibs.Graceful.All.{Task, running, failed, sending, leaving, over, all_running, all_over}

abbrev pub optional : Option Error → List Error
optional none = []
optional (some e) = e ∷ []

abbrev pub sent_by : Task → List Error
sent_by (over e) = optional e
sent_by (leaving e) = optional e
sent_by running = []
sent_by (failed e) = []
sent_by (sending e) = []

abbrev pub has_returned_error : Task → Bool
has_returned_error (failed e) = true
has_returned_error (sending e) = true
has_returned_error (leaving e) = is_some e
has_returned_error (over e) = is_some e
has_returned_error running = false

abbrev pub is_sending : Task → Bool
is_sending (sending e) = true
is_sending (failed e) = false
is_sending (leaving e) = false
is_sending (over e) = false
is_sending running = false

abbrev pub past_cancel : Task → Bool
past_cancel (sending e) = true
past_cancel (leaving e) = is_some e
past_cancel (over e) = is_some e
past_cancel (failed e) = false
past_cancel running = false

-- The errors that the goroutines have sent, in the order of the functions.
unfoldable pub errors_of : List Task → List Error
errors_of [] = []
errors_of (x ∷ ts) = sent_by x ++ errors_of ts

unfoldable pub any : (Task → Bool) → List Task → Bool
any p [] = false
any p (x ∷ ts) = p x || any p ts

pub errors_of-append :
    (a b : List Task) (x : Task)
    → errors_of (a ++ x ∷ b) ≡ errors_of a ++ (sent_by x ++ errors_of b)
unfolding errors_of
errors_of-append [] b x = refl
errors_of-append (y ∷ a) b x =
    ap (λ es. sent_by y ++ es) (errors_of-append a b x)
    ∙ sym (append_assoc (sent_by y) (errors_of a) (sent_by x ++ errors_of b))

pub any-append :
    (p : Task → Bool) (a b : List Task) (x : Task)
    → any p (a ++ x ∷ b) ≡ (p x || (any p a || any p b))
unfolding any
any-append p [] b x = refl
any-append p (y ∷ a) b x = ground (arith, any-append p a b x)

pub not_over :
    (before after : List Task) (x : Task)
    → all_over (x ∷ []) ≡ false
    → all_over (before ++ x ∷ after) ≡ false
not_over [] after running h = refl
not_over [] after (failed e) h = refl
not_over [] after (sending e) h = refl
not_over [] after (leaving e) h = refl
not_over [] after (over e) h = cc h
not_over (running ∷ before) after x h = refl
not_over (failed e ∷ before) after x h = refl
not_over (sending e ∷ before) after x h = refl
not_over (leaving e ∷ before) after x h = refl
not_over (over e ∷ before) after x h = not_over before after x h

pub length-all_running : {A : Type 0} (fns : List A) → length (all_running fns) ≡ length fns
length-all_running [] = refl
length-all_running (f ∷ fns) = ap suc (length-all_running fns)

pub errors_of-all_running : {A : Type 0} (fns : List A) → errors_of (all_running fns) ≡ []
unfolding errors_of
errors_of-all_running [] = refl
errors_of-all_running (f ∷ fns) = errors_of-all_running fns

pub any-all_running : {A : Type 0} (fns : List A) → any past_cancel (all_running fns) ≡ false
unfolding any
any-all_running [] = refl
any-all_running (f ∷ fns) = any-all_running fns

-- With a goroutine that is about to send, the errors that were sent are fewer than the goroutines.
pub length-errors_of : (ts : List Task) → length (errors_of ts) < suc (length ts)
unfolding errors_of
length-errors_of [] = omega arith
length-errors_of (running ∷ ts) = omega (arith, length-errors_of ts)
length-errors_of (failed e ∷ ts) = omega (arith, length-errors_of ts)
length-errors_of (sending e ∷ ts) = omega (arith, length-errors_of ts)
length-errors_of (leaving none ∷ ts) = omega (arith, length-errors_of ts)
length-errors_of (leaving (some e) ∷ ts) = omega (arith, length-errors_of ts)
length-errors_of (over none ∷ ts) = omega (arith, length-errors_of ts)
length-errors_of (over (some e) ∷ ts) = omega (arith, length-errors_of ts)

pub room : (ts : List Task) → any is_sending ts ≡ true → length (errors_of ts) < length ts
unfolding errors_of any
room [] h = cc h
room (running ∷ ts) h = omega (arith, room ts h)
room (failed e ∷ ts) h = omega (arith, room ts h)
room (sending e ∷ ts) h = omega (arith, length-errors_of ts)
room (leaving none ∷ ts) h = omega (arith, room ts h)
room (leaving (some e) ∷ ts) h = omega (arith, room ts h)
room (over none ∷ ts) h = omega (arith, room ts h)
room (over (some e) ∷ ts) h = omega (arith, room ts h)

-- When all are over, those that returned an error have sent it.
pub all_sent :
    (ts : List Task)
    → all_over ts ≡ true
    → not (is_empty (errors_of ts)) ≡ any has_returned_error ts
unfolding errors_of any
all_sent [] h = refl
all_sent (running ∷ ts) h = cc h
all_sent (failed e ∷ ts) h = cc h
all_sent (sending e ∷ ts) h = cc h
all_sent (leaving e ∷ ts) h = cc h
all_sent (over none ∷ ts) h = all_sent ts h
all_sent (over (some e) ∷ ts) h = refl

pub sent-past_cancel :
    (ts : List Task) → is_empty (errors_of ts) ≡ false → any past_cancel ts ≡ true
unfolding errors_of any
sent-past_cancel [] h = cc h
sent-past_cancel (running ∷ ts) h = sent-past_cancel ts h
sent-past_cancel (failed e ∷ ts) h = sent-past_cancel ts h
sent-past_cancel (sending e ∷ ts) h = refl
sent-past_cancel (leaving none ∷ ts) h = sent-past_cancel ts h
sent-past_cancel (leaving (some e) ∷ ts) h = refl
sent-past_cancel (over none ∷ ts) h = sent-past_cancel ts h
sent-past_cancel (over (some e) ∷ ts) h = refl
