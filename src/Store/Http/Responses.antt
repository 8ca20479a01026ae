-- ===== src/Store/Http/Responses.antt =====
-- What the client reads from a response, and what a store over named values promises.
use golibs.Prelude.{ℕ, false, Option, none, some, ◌≡◌, refl, ap, ◌∙◌, ◌==◌, arith, Bytes, bytes_key}
use golibs.Errors.{Error}
use golibs.Exec.{Result, ok, err}
use golibs.Http.{parse, Data}
use golibs.Store.{Store}
use golibs.Store.Options.{nil}
use golibs.Store.Http.Client.{parsed, expect}
use golibs.Errors.{status_code_as_err, has_code}
use golibs.Http.{response_error}
use golibs.Store.Spec.{
  put as put_entry, spec_create, spec_read, spec_update, spec_delete, Agrees, Lists,
}

-- What a store over named values promises, without options, where `Name` says which names can stand
-- in a URL.
pub record Serves {S V : Type 0} (Inv : S → Type 0) (view : S → Bytes → Option V)
    (validate : V → Option Error) (get_name : V → Bytes) (Name : Bytes → Type 0)
    (st : Store S Bytes V) : Type 0 where
  pub creates :
      (v : V) (s : S)
      → validate v ≡ none
      → Inv s
      → Agrees Inv view
          (st.create (get_name v) v nil s)
          (spec_create (get_name v) v (view s) (view s (get_name v)))
  pub reads :
      (k : Bytes) (s : S)
      → Name k
      → Inv s
      → Agrees Inv view (st.read k nil s) (spec_read (view s) (view s k))
  pub updates :
      (v : V) (s : S)
      → Name (get_name v)
      → validate v ≡ none
      → Inv s
      → Agrees Inv view
          (st.update (get_name v) v nil s)
          (spec_update (get_name v) v (view s) (view s (get_name v)))
  pub applies :
      (v : V) (s : S)
      → Name (get_name v)
      → validate v ≡ none
      → Inv s
      → Agrees Inv view (st.apply (get_name v) v nil s) (ok tt, put_entry (get_name v) v (view s))
  pub deletes :
      (k : Bytes) (s : S)
      → Name k
      → Inv s
      → Agrees Inv view (st.delete k nil s) (spec_delete k (view s) (view s k))
  pub lists : (s : S) → Inv s → Lists Inv view (st.list nil s) (view s) (view s)

abbrev pub received : {W : Type 0} → W → ℕ → Data W
received w n = record { raw = some w; status = n; error = none }

pub expect-same : {W : Type 0} (c n : ℕ) (w : W) → n ≡ c → expect c (received w n) ≡ ok tt
unfolding expect
expect-same c n w h = ground (arith)

-- A response that carries the status of an error.
pub expect-error :
    {W : Type 0} (c m n : ℕ) (w : W) (e : Error)
    → m ≡ n
    → status_code_as_err n ≡ some e
    → (n == c) ≡ false
    → expect c (received w m) ≡ err e
unfolding expect response_error
expect-error c m n w e h l k = rw (h, l, k) refl

parse-received :
    {W A : Type 0} (unmarshal : W → Result A) (a : A) (w : W) (n : ℕ)
    → unmarshal w ≡ ok a
    → parse unmarshal (received w n) ≡ (some a, received w n)
unfolding parse
parse-received unmarshal a w n m = rw m refl

parsed-200 : {W A : Type 0} (zero a : A) (w : W) → parsed zero (some a, received w 200) ≡ ok a
unfolding parsed response_error has_code
parsed-200 zero a w = refl

pub parsed-ok :
    {W A : Type 0} (unmarshal : W → Result A) (zero a : A) (w : W) (n : ℕ)
    → n ≡ 200
    → unmarshal w ≡ ok a
    → parsed zero (parse unmarshal (received w n)) ≡ ok a
parsed-ok unmarshal zero a w n l m =
    ap (parsed zero) (parse-received unmarshal a w n m)
    ∙ ap (λ c. parsed zero (some a, received w c)) l
    ∙ parsed-200 zero a w

pub parsed-status :
    {W A : Type 0} (unmarshal : W → Result A) (zero a : A) (w : W) (m n : ℕ) (e : Error)
    → m ≡ n
    → unmarshal w ≡ ok a
    → status_code_as_err n ≡ some e
    → parsed zero (parse unmarshal (received w m)) ≡ err e
unfolding parsed parse response_error has_code
parsed-status unmarshal zero a w m n e l k p = rw (l, k, p) refl
