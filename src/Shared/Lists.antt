-- ===== src/Shared/Lists.antt =====
-- Lists measured by native numbers, a Boolean filter, and predicates on all elements.
use Prim.Native.Nat.{ℕ, zero, suc, ◌+◌, ◌≤◌}
use mathlib.Core.Path.{◌≡◌, refl}
use mathlib.Core.Bool.{Bool, true, false, ◌||◌}
use mathlib.Core.List.{List, [], ◌∷◌, ◌++◌, Memᴰ}
use native.Mathlib.Omega.{arith}
use clawdentity.Shared.Tests.{if◌then◌else◌}

module _ {ℓ} {A : Type ℓ} where
  abbrev pub length : List A → ℕ
  length [] = 0
  length (x ∷ xs) = suc (length xs)

  abbrev pub take : ℕ → List A → List A
  take zero xs = []
  take (suc n) [] = []
  take (suc n) (x ∷ xs) = x ∷ take n xs

  -- `filter` by a Boolean test.
  unfoldable pub filter : (A → Bool) → List A → List A
  filter p [] = []
  filter p (x ∷ xs) = if p x then x ∷ filter p xs else filter p xs

  -- `some` of an array.
  unfoldable pub any : (A → Bool) → List A → Bool
  any p [] = false
  any p (x ∷ xs) = p x || any p xs

  pub length-append : (xs ys : List A) → length (xs ++ ys) ≡ length xs + length ys
  length-append [] ys = omega arith
  length-append (x ∷ xs) ys = omega (arith, length-append xs ys)

  pub length-filter-le : (p : A → Bool) (xs : List A) → length (filter p xs) ≤ length xs
  unfolding filter
  length-filter-le p [] = omega arith
  length-filter-le p (x ∷ xs) = ground (arith, length-filter-le p xs)

module _ {ℓ κ} {A : Type ℓ} (P : A → Type κ) where
  abbrev pub All : List A → Type κ
  All [] = Unit
  All (x ∷ xs) = P x × All xs

  pub All-append : (xs ys : List A) → All xs → All ys → All (xs ++ ys)
  All-append [] ys _ k = k
  All-append (x ∷ xs) ys (p, h) k = (p, All-append xs ys h k)

  pub All-filter : (p : A → Bool) (xs : List A) → All xs → All (filter p xs)
  unfolding filter
  All-filter p [] _ = tt
  All-filter p (x ∷ xs) (q, h) = ground (arith, All-filter p xs h)

  pub All-mem : {a : A} (xs : List A) → All xs → Memᴰ a xs → P a
  All-mem [] _ m = elim m [ ]
  All-mem (x ∷ xs) (p, h) (Memᴰ.head e) = rw e p
  All-mem (x ∷ xs) (p, h) (Memᴰ.tail m) = All-mem xs h m

module _ {ℓ} {A : Type ℓ} where
  keep_mem :
      {a : A} (x : A) {ys : List A} (b : Bool) → Memᴰ a ys → Memᴰ a (if b then x ∷ ys else ys)
  keep_mem x true m = Memᴰ.tail m
  keep_mem x false m = m

  -- What passes the test is in the filtered list.
  pub filter-mem :
      {a : A} (p : A → Bool) (xs : List A) → Memᴰ a xs → p a ≡ true → Memᴰ a (filter p xs)
  unfolding filter
  filter-mem p [] m h = elim m [ ]
  filter-mem p (x ∷ xs) (Memᴰ.head e) h = rw (← e, h) (Memᴰ.head refl)
  filter-mem p (x ∷ xs) (Memᴰ.tail m) h = keep_mem x (p x) (filter-mem p xs m h)

  -- All that a filter keeps passes its test.
  pub filter-passes : (p : A → Bool) (xs : List A) → All (λ x. p x ≡ true) (filter p xs)
  unfolding filter
  filter-passes p [] = tt
  filter-passes p (x ∷ xs) = ground (arith, filter-passes p xs)

  mem_after :
      {a : A} (x : A) (b : Bool) (xs ys : List A)
      → (Memᴰ a ys → Memᴰ a xs)
      → Memᴰ a (if b then x ∷ ys else ys)
      → Memᴰ a (x ∷ xs)
  mem_after x true xs ys h (Memᴰ.head e) = Memᴰ.head e
  mem_after x true xs ys h (Memᴰ.tail m) = Memᴰ.tail (h m)
  mem_after x false xs ys h m = Memᴰ.tail (h m)

  -- The filtered list has nothing else.
  pub mem_of_filter : {a : A} (p : A → Bool) (xs : List A) → Memᴰ a (filter p xs) → Memᴰ a xs
  unfolding filter
  mem_of_filter p [] m = m
  mem_of_filter p (x ∷ xs) m = mem_after x (p x) xs (filter p xs) (mem_of_filter p xs) m
