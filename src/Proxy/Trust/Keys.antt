-- ===== src/Proxy/Trust/Keys.antt =====
-- apps/proxy/src/proxy-trust-keys.ts: the key of a pair, and an expiry in whole seconds.
use Prim.Native.Nat.{ℕ, ◌*◌, ◌/◌, Ordering, compare as compare_ℕ}
use Prim.Native.Char.{code}
use Prim.Native.String.{String, [], ◌∷◌, ◌++◌, compare, then}
use Prim.Native.String.compare
use mathlib.Core.Path.{◌≡◌, refl, sym, ◌∙◌, ap, ap₂}
use native.Mathlib.Omega.{arith}
use text.Mathlib.TextEquality.{path_by_compare}

-- `[a, b].sort().join("|")`. `sort` compares UTF-16 units, `compare` characters: the two orders
-- differ only where one text has a character above U+FFFF and the other one from U+E000 on.
in_order : Ordering → String → String → String
in_order Ordering.gt a b = b ++ ("|" ++ a)
in_order _ a b = a ++ ("|" ++ b)

unfoldable pub to_pair_key : String → String → String
unfolding in_order
to_pair_key initiator responder = in_order (compare initiator responder) initiator responder

unfoldable pub normalize_expiry_to_whole_second : ℕ → ℕ
normalize_expiry_to_whole_second expires_at_ms = expires_at_ms / 1000 * 1000

flip : Ordering → Ordering
flip Ordering.lt = Ordering.gt
flip Ordering.eq = Ordering.eq
flip Ordering.gt = Ordering.lt

flip-compare_ℕ : (m n : ℕ) → compare_ℕ n m ≡ flip (compare_ℕ m n)
unfolding flip
flip-compare_ℕ m n = ground arith

flip-then : (o p : Ordering) → then (flip o) (flip p) ≡ flip (then o p)
unfolding flip
flip-then Ordering.lt p = refl
flip-then Ordering.eq p = refl
flip-then Ordering.gt p = refl

flip-compare : (s t : String) → compare t s ≡ flip (compare s t)
unfolding flip
flip-compare [] [] = refl
flip-compare [] (d ∷ t) = rw (compare.nil-cons, compare.cons-nil) refl
flip-compare (c ∷ s) [] = rw (compare.nil-cons, compare.cons-nil) refl
flip-compare (c ∷ s) (d ∷ t) =
    compare.cons-cons d c t s
    ∙ ap₂ then (flip-compare_ℕ (code c) (code d)) (flip-compare s t)
    ∙ flip-then (compare_ℕ (code c) (code d)) (compare s t)
    ∙ sym (ap flip (compare.cons-cons c d s t))

in_order-flip :
    (o : Ordering) (s t : String)
    → (o ≡ Ordering.eq → s ≡ t)
    → in_order (flip o) t s ≡ in_order o s t
unfolding in_order flip
in_order-flip Ordering.lt s t h = refl
in_order-flip Ordering.gt s t h = refl
in_order-flip Ordering.eq s t h = rw (h refl) refl

-- A pair has one key, whichever of its agents is named first.
pub to_pair_key_comm : (s t : String) → to_pair_key s t ≡ to_pair_key t s
unfolding to_pair_key
to_pair_key_comm s t = sym (
    ap (λ o. in_order o t s) (flip-compare s t)
    ∙ in_order-flip (compare s t) s t (path_by_compare s t))
