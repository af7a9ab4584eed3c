-- ===== src/Run/Threads/Returns/Places.antt =====
-- src/lib.rs, `run`: where in the list of threads the worker stands that stands in one place of the walk.
use minifind.Base.{◌≡◌, refl, ap, ◌∙◌, List, [], ◌∷◌, ◌++◌}
use minifind.Pipeline.Worker.Whole.{map}

-- The place in a list at which its image has a given element.
pub record Origin {A B : Type 0} (g : A → B) (l : List A) (xs ys : List B) (w : B) : Type 0 where
  pub before : List A
  pub after : List A
  pub it : A
  pub place : l ≡ before ++ (it ∷ after)
  pub left : map g before ≡ xs
  pub here : g it ≡ w
  pub right : map g after ≡ ys

cons-inj : {A : Type 0} (x y : A) (xs ys : List A) → x ∷ xs ≡ y ∷ ys → (x ≡ y) × (xs ≡ ys)
cons-inj x y xs ys e = (cc e, cc e)

pub origin :
    {A B : Type 0} (g : A → B) (xs : List B) (l : List A) (ys : List B) (w : B)
    → map g l ≡ xs ++ (w ∷ ys)
    → Origin g l xs ys w
origin g [] [] ys w e = cc
origin g [] (x ∷ l) ys w e =
    let (a, b) = cons-inj (g x) w (map g l) ys e in
    record { before = []; after = l; it = x; place = refl; left = refl; here = a; right = b }
origin g (z ∷ xs) [] ys w e = cc
origin g (z ∷ xs) (x ∷ l) ys w e =
    let (a, b) = cons-inj (g x) z (map g l) (xs ++ (w ∷ ys)) e in
    let o = origin g xs l ys w b in
    record {
      before = x ∷ o.before;
      after = o.after;
      it = o.it;
      place = ap (λ t. x ∷ t) o.place;
      left = ap (λ t. g x ∷ t) o.left ∙ ap (λ t. t ∷ xs) a;
      here = o.here;
      right = o.right;
    }
