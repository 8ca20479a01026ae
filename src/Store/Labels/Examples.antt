-- ===== src/Store/Labels/Examples.antt =====
-- The theorems on labels over the in-memory store, with selectors that are sets of labels.
use golibs.Prelude.{
  ℕ, Bool, true, false, ◌&&◌, Option, none, some, [], ◌∷◌, ◌≡◌, refl, sym, Bytes, bytes_key,
  bytes_eqb, bytes_eqb_iff, codes, arith, is_some,
}
use golibs.GoMap.{lookup, IsMap}
use golibs.Exec.{Result, ok}
use golibs.Store.Options.{StoreOptions, nil, cons}
use golibs.Store.Memory.{memory}
use golibs.Store.Memory.Refines.{view, memory-Implements}
use golibs.Store.Spec.{Implements}
use golibs.Store.Labels.{LabelMap, Selectors, build_labels, with_labels, match_labels}
use golibs.Store.Labels.Merged.{Merged, build_labels-Merged}
use golibs.Store.Labels.Labeller.{Config, labeller}
use golibs.Store.Labels.Labeller.Selection.{Carries, Documented, Enriches}
use golibs.Store.Labels.Labeller.Contents.{Labelled, unlabelled}
use golibs.Store.Labels.Labeller.Refines.{labeller-Implements}

abbrev says : Bytes → Option Bytes → Bool
says v none = false
says v (some w) = bytes_eqb v w

unfoldable all_in : LabelMap → LabelMap → Bool
unfolding lookup
all_in [] n = true
all_in ((k, v) ∷ m) n = says v (lookup k n) && all_in m n

abbrev sets : Selectors LabelMap (Bytes × Bytes)
unfolding all_in
sets = record {
  parse = λ s. ok [];
  from_set = λ m. m;
  requirements = λ m. some m;
  requirement_key = λ r. r.0;
  of_requirements = λ rs. rs;
  to_string = λ m. [];
  matches = λ m n. all_in m n;
}

all_in-Carries : (m n : LabelMap) → IsMap m → Carries m n → all_in m n ≡ true
unfolding all_in lookup
all_in-Carries [] n i c = refl
all_in-Carries ((k, v) ∷ m) n i c =
    let h : lookup k n ≡ some v = c k v (ground (arith, bytes_eqb_iff k k)) in
    let rest : all_in m n ≡ true =
      all_in-Carries m n i.1 (λ j w e. c j w (ground (arith, bytes_eqb_iff k j, i.0))) in
    ground (arith, bytes_eqb_iff v v)

sets-Documented : Documented sets
unfolding sets all_in
sets-Documented = record {
  everything = [];
  set_requirements = λ m. m;
  parse_empty = refl;
  everything_requires = refl;
  everything_matches = λ m. refl;
  set_requires = λ m. refl;
  set_matches = all_in-Carries;
}

abbrev app : LabelMap
app = (codes "app", codes "x") ∷ []

abbrev even : ℕ → Result LabelMap
even n = ok ((codes "sign", codes "positive") ∷ [])

abbrev config : Config ℕ
config = record { immutable_labels = app; labels_enricher = some even }

app-IsMap : IsMap app
unfolding lookup
app-IsMap = (refl, tt)

apart_lem :
    (k : Bytes)
    → is_some (lookup k app) ≡ true
    → lookup k ((codes "sign", codes "positive") ∷ []) ≡ none
unfolding lookup bytes_eqb
apart_lem k h =
    let e : codes "app" ≡ k = ground (arith, bytes_eqb_iff (codes "app") k) in rw (sym e) refl

even-Enriches : (n : ℕ) → Enriches config n
unfolding lookup
even-Enriches n = record {
  own = (codes "sign", codes "positive") ∷ [];
  gives = refl;
  is_map = (refl, tt);
  apart = λ k h. apart_lem k h;
}

labeller-Implements_example :
    Implements
      (Labelled app IsMap view)
      (unlabelled view)
      (labeller sets config (memory {K = Bytes} none))
labeller-Implements_example =
    labeller-Implements sets sets-Documented config app-IsMap even-Enriches IsMap view (memory none)
      (memory-Implements none)

abbrev custom : StoreOptions
custom = cons (with_labels ((codes "app", codes "y") ∷ [])) nil

build_labels-Merged_example :
    Merged app
      ((codes "app", codes "y") ∷ [])
      ((codes "sign", codes "positive") ∷ [])
      (build_labels 5 app (some even) custom).0
unfolding lookup match_labels
build_labels-Merged_example =
    build_labels-Merged 5 app ((codes "sign", codes "positive") ∷ []) (some even) custom refl
      (refl, tt) (refl, tt) (refl, tt)
