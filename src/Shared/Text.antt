-- ===== src/Shared/Text.antt =====
-- `String.prototype.trim`, and the tests for empty texts that follow it.
use Prim.Native.Nat.{ℕ, Ordering}
use Prim.Native.Char.{Char, code}
use Prim.Native.String.{String, [], ◌∷◌, compare}
use mathlib.Core.Path.{◌≡◌, refl, ap, ◌∙◌}
use mathlib.Core.Logic.{inl, inr}
use mathlib.Core.Bool.{Bool, true, false, ◌&&◌, ◌||◌}
use clawdentity.Shared.Tests.{leb, nat_eq, if◌then◌else◌, Bool-cases}

-- The white space and line ends of ECMAScript.
is_space : ℕ → Bool
is_space c =
    leb 9 c && leb c 13
    || nat_eq c 32
    || nat_eq c 160
    || nat_eq c 0x1680
    || leb 0x2000 c && leb c 0x200a
    || nat_eq c 0x2028
    || nat_eq c 0x2029
    || nat_eq c 0x202f
    || nat_eq c 0x205f
    || nat_eq c 0x3000
    || nat_eq c 0xfeff

trim_start : String → String
trim_start [] = []
trim_start (c ∷ s) = if is_space (code c) then trim_start s else c ∷ s

abbrev pub is_empty : String → Bool
is_empty [] = true
is_empty (c ∷ s) = false

trim_end : String → String
trim_end [] = []
trim_end (c ∷ s) =
    let rest = trim_end s in if is_empty rest && is_space (code c) then [] else c ∷ rest

unfoldable pub trim : String → String
unfolding is_space trim_start trim_end
trim s = trim_end (trim_start s)

-- The order of texts by which `sort` goes; it compares UTF-16 units, `compare` characters: they
-- differ only where one text has a character above U+FFFF and the other one from U+E000 on.
abbrev pub text_leb : String → String → Bool
text_leb s t = elim (compare s t) [ Ordering.gt ↦ false | _ ↦ true ]

-- The first character, if there is one, is no white space.
abbrev IsStarted : String → Type 0
IsStarted [] = Unit
IsStarted (c ∷ s) = is_space (code c) ≡ false

trim_start-IsStarted : (s : String) → IsStarted (trim_start s)
unfolding trim_start
trim_start-IsStarted [] = tt
trim_start-IsStarted (c ∷ s) = elim (Bool-cases (is_space (code c))) [
  | inl space ↦ rw space (trim_start-IsStarted s)
  | inr other ↦ rw other other
]

trim_start-cons : (c : Char) (s : String) → is_space (code c) ≡ false → trim_start (c ∷ s) ≡ c ∷ s
unfolding trim_start
trim_start-cons c s h = rw h refl

trim_end-cons :
    (c : Char) (s : String) → is_space (code c) ≡ false → trim_end (c ∷ s) ≡ c ∷ trim_end s
unfolding trim_end
trim_end-cons c s h = elim (Bool-cases (is_empty (trim_end s))) [
  | inl e ↦ rw (e, h) refl
  | inr e ↦ rw e refl
]

trim_start_of_IsStarted : (s : String) → IsStarted s → trim_start (trim_end s) ≡ trim_end s
trim_start_of_IsStarted [] h = unfold trim_start trim_end in refl
trim_start_of_IsStarted (c ∷ s) h = rw (trim_end-cons c s h) (trim_start-cons c (trim_end s) h)

trim_end-trim_end : (s : String) → trim_end (trim_end s) ≡ trim_end s
unfolding trim_end
trim_end-trim_end [] = refl
trim_end-trim_end (c ∷ s) = elim (Bool-cases (is_empty (trim_end s) && is_space (code c))) [
  | inl gone ↦ rw gone refl
  | inr kept ↦ rw (kept, trim_end-trim_end s, kept) refl
]

pub trim-trim : (s : String) → trim (trim s) ≡ trim s
unfolding trim
trim-trim s =
    ap trim_end (trim_start_of_IsStarted (trim_start s) (trim_start-IsStarted s))
    ∙ trim_end-trim_end (trim_start s)
