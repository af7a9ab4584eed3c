-- ===== src/Walk/System/Costs.antt =====
-- Sums over lists with one element replaced: the bookkeeping of the bag of tasks and the workers.
use minifind.Base.{ℕ, ◌+◌, ◌≡◌, refl, List, [], ◌∷◌, ◌++◌, arith}
use mathlib.Core.Path.{subst}

module _ {A : Type 0} (w : A → ℕ) where
  unfoldable pub sum : List A → ℕ
  sum [] = 0
  sum (x ∷ xs) = w x + sum xs

  pub sum-append : (xs ys : List A) → sum (xs ++ ys) ≡ sum xs + sum ys
  unfolding sum
  sum-append [] ys = omega arith
  sum-append (x ∷ xs) ys = omega (arith, sum-append xs ys)

  -- The sum with the element singled out.
  pub sum_middle : (xs ys : List A) (x : A) → sum (xs ++ (x ∷ ys)) ≡ sum xs + w x + sum ys
  unfolding sum
  sum_middle xs ys x = omega (arith, sum-append xs (x ∷ ys))

-- A list whose elements have costs by `C`, with the sum of the costs.
pub data Costs {A : Type 0} (C : A → ℕ → Type 0) : List A → ℕ → Type 0 where
  nil : Costs C [] 0
  cons : {x : A} {xs : List A} {j k n : ℕ} → C x j → Costs C xs k → n ≡ j + k → Costs C (x ∷ xs) n

-- The cost with one element's singled out, from which the element may be dropped or replaced.
pub record Split {A : Type 0} (C : A → ℕ → Type 0) (xs ys : List A) (x : A) (n : ℕ) : Type 0 where
  pub before : ℕ
  pub own : ℕ
  pub after : ℕ
  pub left : Costs C xs before
  pub here : C x own
  pub right : Costs C ys after
  pub total : n ≡ before + own + after

module _ {A : Type 0} {C : A → ℕ → Type 0} where
  pub split : (xs ys : List A) {x : A} {n : ℕ} → Costs C (xs ++ (x ∷ ys)) n → Split C xs ys x n
  split [] ys (cons {j = j} {k = k} h t e) = record {
    before = 0;
    own = j;
    after = k;
    left = nil;
    here = h;
    right = t;
    total = omega arith;
  }
  split (z ∷ xs) ys (cons {j = j} h t e) =
      let s = split xs ys t in
      record {
        before = j + s.before;
        own = s.own;
        after = s.after;
        left = cons h s.left refl;
        here = s.here;
        right = s.right;
        total = omega (arith, s.total);
      }

  pub join :
      {xs ys : List A} {j k n : ℕ} → Costs C xs j → Costs C ys k → n ≡ j + k → Costs C (xs ++ ys) n
  join {ys = ys} nil c q = subst (Costs C ys) (omega arith) c
  join (cons h t e) c q = cons h (join t c refl) (omega arith)

  -- Another element in the place of the one singled out.
  pub replace :
      {xs ys : List A} {x y : A} {n m j : ℕ} (s : Split C xs ys x n)
      → C y j
      → m + s.own ≡ n + j
      → Costs C (xs ++ (y ∷ ys)) m
  replace s h q = join s.left (cons h s.right refl) (omega (arith, s.total))

  pub drop :
      {xs ys : List A} {x : A} {n m : ℕ} (s : Split C xs ys x n)
      → m + s.own ≡ n
      → Costs C (xs ++ ys) m
  drop s q = join s.left s.right (omega (arith, s.total))
