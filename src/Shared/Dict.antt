-- ===== src/Shared/Dict.antt =====
-- A JavaScript `Map` (or a plain object used as one) with text keys: an association list in the
-- order of insertion, with `get`, `set`, `delete`, `size` and the loop that deletes entries.
use Prim.Native.Nat.{◌+◌, ◌≤◌}
use Prim.Native.String.{String}
use mathlib.Core.Path.{◌≡◌, refl, sym, subst, ap}
use mathlib.Core.Logic.{inl, inr}
use mathlib.Core.Bool.{Bool, true}
use mathlib.Core.Option.{Option, none, some}
use mathlib.Core.List.{List, [], ◌∷◌, ◌++◌}
use native.Mathlib.Omega.{arith}
use text.Mathlib.TextEquality.{eq_iff}
use text.Mathlib.TextPositions.{eq_refl}
use clawdentity.Shared.Tests.{◌==◌, if◌then◌else◌, Bool-cases}
use clawdentity.Shared.Lists.{length, All}

abbrev pub Dict {ℓ} : Type ℓ → Type ℓ
Dict V = List (String × V)

module _ {ℓ} {V : Type ℓ} where
  unfoldable pub get : Dict V → String → Option V
  get [] k = none
  get ((j, v) ∷ m) k = if j == k then some v else get m k

  -- A key that is there keeps its place.
  unfoldable pub set : Dict V → String → V → Dict V
  set [] k v = (k, v) ∷ []
  set ((j, w) ∷ m) k v = if j == k then (j, v) ∷ m else (j, w) ∷ set m k v

  unfoldable pub delete : Dict V → String → Dict V
  delete [] k = []
  delete ((j, v) ∷ m) k = if j == k then delete m k else (j, v) ∷ delete m k

  -- `for (const [key, value] of map.entries()) if (!keep(key, value)) map.delete(key)`
  unfoldable pub retain : (String → V → Bool) → Dict V → Dict V
  retain keep [] = []
  retain keep ((j, v) ∷ m) = if keep j v then (j, v) ∷ retain keep m else retain keep m

  pub get-set :
      (m : Dict V) (k j : String) (v : V) → get (set m k v) j ≡ (if k == j then some v else get m j)
  unfolding get set
  get-set [] k j v = refl
  get-set ((i, w) ∷ m) k j v = ground (arith, eq_iff k j, eq_iff i k, eq_iff i j, get-set m k j v)

  pub get-set_self : (m : Dict V) (k : String) (v : V) → get (set m k v) k ≡ some v
  get-set_self m k v = simp (get-set, eq_refl)

  pub get-delete :
      (m : Dict V) (k j : String) → get (delete m k) j ≡ (if k == j then none else get m j)
  unfolding get delete
  get-delete [] k j = ground arith
  get-delete ((i, w) ∷ m) k j = ground (arith, eq_iff k j, eq_iff i k, eq_iff i j, get-delete m k j)

  pub get-delete_self : (m : Dict V) (k : String) → get (delete m k) k ≡ none
  get-delete_self m k = simp (get-delete, eq_refl)

  -- An entry that the loop keeps is found as before.
  pub get-retain_of_keep :
      (keep : String → V → Bool) (m : Dict V) (k : String) (v : V)
      → get m k ≡ some v
      → keep k v ≡ true
      → get (retain keep m) k ≡ some v
  unfolding get retain
  get-retain_of_keep keep [] k v h p = cc
  get-retain_of_keep keep ((i, w) ∷ m) k v h p =
      ground (arith, eq_iff i k, get-retain_of_keep keep m k v)

  -- No key twice.
  abbrev pub IsDistinct : Dict V → Type ℓ
  IsDistinct [] = Unit
  IsDistinct ((k, v) ∷ m) = (get m k ≡ none) × IsDistinct m

  pub get-retain-none :
      (keep : String → V → Bool) (m : Dict V) (k : String)
      → get m k ≡ none
      → get (retain keep m) k ≡ none
  unfolding get retain
  get-retain-none keep [] k h = refl
  get-retain-none keep ((i, w) ∷ m) k h = ground (arith, eq_iff i k, get-retain-none keep m k)

  abbrev pub keep_if : (V → Bool) → Option V → Option V
  keep_if p none = none
  keep_if p (some v) = if p v then some v else none

  -- In a map without doubled keys the loop keeps an entry exactly if its test passes.
  pub get-retain :
      (keep : String → V → Bool) (m : Dict V) (k : String)
      → IsDistinct m
      → get (retain keep m) k ≡ keep_if (keep k) (get m k)
  unfolding get retain
  get-retain keep [] k d = refl
  get-retain keep ((i, w) ∷ m) k (fresh, d) =
      ground (arith, eq_iff i k, get-retain keep m k d, get-retain-none keep m k)

  pub retain-IsDistinct :
      (keep : String → V → Bool) (m : Dict V) → IsDistinct m → IsDistinct (retain keep m)
  unfolding retain
  retain-IsDistinct keep [] d = tt
  retain-IsDistinct keep ((i, w) ∷ m) (fresh, d) =
      ground (arith, get-retain-none keep m i fresh, retain-IsDistinct keep m d)

  pub set-IsDistinct : (m : Dict V) (k : String) (v : V) → IsDistinct m → IsDistinct (set m k v)
  unfolding set get
  set-IsDistinct [] k v d = (refl, tt)
  set-IsDistinct ((i, w) ∷ m) k v (fresh, d) =
      ground (arith, eq_iff i k, eq_iff k i, get-set m k i v, set-IsDistinct m k v d)

  pub delete-IsDistinct : (m : Dict V) (k : String) → IsDistinct m → IsDistinct (delete m k)
  unfolding delete
  delete-IsDistinct [] k d = tt
  delete-IsDistinct ((i, w) ∷ m) k (fresh, d) =
      ground (arith, eq_iff i k, get-delete m k i, eq_iff k i, delete-IsDistinct m k d)

  pub length-set-le : (m : Dict V) (k : String) (v : V) → length (set m k v) ≤ length m + 1
  unfolding set
  length-set-le [] k v = omega arith
  length-set-le ((i, w) ∷ m) k v = ground (arith, length-set-le m k v)

  pub length-retain-le : (keep : String → V → Bool) (m : Dict V) → length (retain keep m) ≤ length m
  unfolding retain
  length-retain-le keep [] = omega arith
  length-retain-le keep ((i, w) ∷ m) = ground (arith, length-retain-le keep m)

  -- To overwrite a key that is there adds no entry.
  pub length-set_of_some :
      (m : Dict V) (k : String) (v w : V) → get m k ≡ some w → length (set m k v) ≡ length m
  unfolding get set
  length-set_of_some [] k v w h = cc
  length-set_of_some ((i, u) ∷ m) k v w h = ground (arith, length-set_of_some m k v w)

  pub length-delete-le : (m : Dict V) (k : String) → length (delete m k) ≤ length m
  unfolding delete
  length-delete-le [] k = omega arith
  length-delete-le ((i, w) ∷ m) k = ground (arith, length-delete-le m k)

  pub length-delete-lt :
      (m : Dict V) (k : String) (v : V) → get m k ≡ some v → length (delete m k) + 1 ≤ length m
  unfolding get delete
  length-delete-lt [] k v h = cc
  length-delete-lt ((i, w) ∷ m) k v h = ground (arith, length-delete-lt m k v, length-delete-le m k)

module _ {ℓ κ} {V : Type ℓ} (P : String × V → Type κ) where
  pub All-set : (m : Dict V) (k : String) (v : V) → All P m → P (k, v) → All P (set m k v)
  unfolding set
  All-set [] k v h p = (p, tt)
  All-set ((i, w) ∷ m) k v (q, h) p = elim (Bool-cases (i == k)) [
    | inl same ↦ rw same (subst (λ j. P (j, v)) (sym ((eq_iff i k).0 same)) p, h)
    | inr other ↦ rw other (q, All-set m k v h p)
  ]

  pub All-delete : (m : Dict V) (k : String) → All P m → All P (delete m k)
  unfolding delete
  All-delete [] k h = tt
  All-delete ((i, w) ∷ m) k (q, h) = ground (arith, All-delete m k h)

  pub All-retain : (keep : String → V → Bool) (m : Dict V) → All P m → All P (retain keep m)
  unfolding retain
  All-retain keep [] h = tt
  All-retain keep ((i, w) ∷ m) (q, h) = ground (arith, All-retain keep m h)

  pub All-get : (m : Dict V) (k : String) (v : V) → All P m → get m k ≡ some v → P (k, v)
  unfolding get
  All-get [] k v h e = cc
  All-get ((i, w) ∷ m) k v (q, h) e = elim (Bool-cases (i == k)) [
    | inl same ↦
        let found : w ≡ v = ground arith in
        subst (λ j. P (j, v)) ((eq_iff i k).0 same) (subst (λ u. P (i, u)) found q)
    | inr other ↦ All-get m k v h (rw other at e)
  ]

-- A loop that deletes nothing changes nothing.
pub retain-All {ℓ} :
    {V : Type ℓ} (keep : String → V → Bool) (m : Dict V)
    → All (λ e. keep e.0 e.1 ≡ true) m
    → retain keep m ≡ m
unfolding retain
retain-All keep [] h = refl
retain-All keep ((i, w) ∷ m) (q, h) = rw (q, retain-All keep m h)

module _ {ℓ} {V : Type ℓ} where
  -- A new key goes to the end.
  pub set_of_none :
      (m : Dict V) (k : String) (v : V) → get m k ≡ none → set m k v ≡ m ++ ((k, v) ∷ [])
  unfolding get set
  set_of_none [] k v h = refl
  set_of_none ((i, w) ∷ m) k v h = elim (Bool-cases (i == k)) [
    | inl same ↦ absurd (cc (rw same at h))
    | inr other ↦ rw other (ap (λ l. (i, w) ∷ l) (set_of_none m k v (rw other at h)))
  ]

  get-append-none :
      (m n : Dict V) (k : String) → get (m ++ n) k ≡ none → (get m k ≡ none) × (get n k ≡ none)
  unfolding get
  get-append-none [] n k h = (refl, h)
  get-append-none ((i, w) ∷ m) n k h = ground (arith, get-append-none m n k)

  get-head : (m : Dict V) (k : String) (v : V) → get ((k, v) ∷ m) k ≡ some v
  unfolding get
  get-head m k v = rw (eq_refl k) refl

  -- The key at the middle of a map without doubled keys stands nowhere before.
  pub get_before_none :
      (m n : Dict V) (k : String) (v : V) → IsDistinct (m ++ ((k, v) ∷ n)) → get m k ≡ none
  unfolding get
  get_before_none [] n k v d = refl
  get_before_none ((i, w) ∷ m) n k v (fresh, d) =
      let later = (get-append-none m ((k, v) ∷ n) i fresh).1 in
      ground (arith, eq_iff i k, get_before_none m n k v d, later)

  -- An entry that is kept whatever its value is looked up as before.
  pub get-retain_of_kept :
      (keep : String → V → Bool) (m : Dict V) (k : String)
      → ((v : V) → keep k v ≡ true)
      → get (retain keep m) k ≡ get m k
  unfolding get retain
  get-retain_of_kept keep [] k h = refl
  get-retain_of_kept keep ((i, w) ∷ m) k h =
      ground (arith, eq_iff i k, h w, get-retain_of_kept keep m k h)

pub ruleset dict_laws = (get-set, get-delete)
