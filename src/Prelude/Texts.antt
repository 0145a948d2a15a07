-- ===== src/Prelude/Texts.antt =====
-- Texts that the program takes apart: lists of code points, with the operations of Python's `str` on
-- ASCII texts.
use Prim.Native.Nat.{ℕ, ◌+◌, ◌<◌}
use Prim.Native.Char.{code}
use Prim.Native.String.{String}
use mathlib.Core.Path.{◌≡◌, refl}
use mathlib.Core.Bool.{Bool, true, false, ◌&&◌, ◌||◌}
use mathlib.Core.List.{List, [], ◌∷◌, ◌++◌, map}
use native.Mathlib.Omega.{arith}
use pkgsentry_oss.Prelude.Tests.{nat_eq, leb, ltb, if◌then◌else◌}

abbrev pub Text : Type 0
Text = List ℕ

-- the code points of a literal
abbrev pub codes : String → Text
codes String.[] = []
codes (String.◌∷◌ c s) = code c ∷ codes s

-- `s == t`
abbrev pub text_eq : Text → Text → Bool
text_eq [] [] = true
text_eq [] (d ∷ t) = false
text_eq (c ∷ s) [] = false
text_eq (c ∷ s) (d ∷ t) = nat_eq c d && text_eq s t

-- `s.startswith(p)`
abbrev pub starts_with : Text → Text → Bool
starts_with s [] = true
starts_with [] (d ∷ p) = false
starts_with (c ∷ s) (d ∷ p) = nat_eq c d && starts_with s p

-- `s <= t`
abbrev pub text_leb : Text → Text → Bool
text_leb [] t = true
text_leb (c ∷ s) [] = false
text_leb (c ∷ s) (d ∷ t) = ltb c d || (nat_eq c d && text_leb s t)

unfoldable pub lower_code : ℕ → ℕ
lower_code c = if leb 65 c && leb c 90 then c + 32 else c

-- `s.lower()`
abbrev pub lower : Text → Text
lower s = map lower_code s

-- what stands before the first `sep`, or all
abbrev pub before_sep : ℕ → Text → Text
before_sep sep [] = []
before_sep sep (c ∷ s) = let rest = before_sep sep s in if nat_eq c sep then [] else c ∷ rest

-- `s.split(sep)`: the first part and the others
abbrev pub split_first : ℕ → Text → Text × List Text
split_first sep [] = ([], [])
split_first sep (c ∷ s) =
    let (part, parts) = split_first sep s in
    if nat_eq c sep then ([], part ∷ parts) else (c ∷ part, parts)

abbrev pub split : ℕ → Text → List Text
split sep s = let (part, parts) = split_first sep s in part ∷ parts

-- `sep.join(parts)`
abbrev pub join : ℕ → List Text → Text
join sep [] = []
join sep (p ∷ []) = p
join sep (p ∷ q ∷ parts) = p ++ sep ∷ join sep (q ∷ parts)

pub text_eq→≡ : (s t : Text) → text_eq s t ≡ true → s ≡ t
text_eq→≡ [] [] h = refl
text_eq→≡ [] (d ∷ t) h = cc h
text_eq→≡ (c ∷ s) [] h = cc h
text_eq→≡ (c ∷ s) (d ∷ t) h = ground (arith, h, text_eq→≡ s t)

pub text_eq_refl : (s : Text) → text_eq s s ≡ true
text_eq_refl [] = refl
text_eq_refl (c ∷ s) = ground (arith, text_eq_refl s)

pub starts_with-append : (s t : Text) → starts_with (s ++ t) s ≡ true
starts_with-append [] t = refl
starts_with-append (c ∷ s) t = ground (arith, starts_with-append s t)

pub lower_code_idem : (c : ℕ) → lower_code (lower_code c) ≡ lower_code c
unfolding lower_code
lower_code_idem c = ground arith

pub lower_idem : (s : Text) → lower (lower s) ≡ lower s
lower_idem [] = refl
lower_idem (c ∷ s) = cc (lower_code_idem c, lower_idem s)

pub lower-append : (s t : Text) → lower (s ++ t) ≡ lower s ++ lower t
lower-append [] t = refl
lower-append (c ∷ s) t = cc (lower-append s t)

-- A separator that is no capital letter is left alone, and no other code point becomes it.
pub lower_code-eq :
    (sep c : ℕ) → lower_code sep ≡ sep → (sep < 97) → nat_eq (lower_code c) sep ≡ nat_eq c sep
unfolding lower_code
lower_code-eq sep c h k = ground (arith, h, k)

pub before_sep-lower :
    (sep : ℕ) (s : Text)
    → lower_code sep ≡ sep
    → sep < 97
    → before_sep sep (lower s) ≡ lower (before_sep sep s)
before_sep-lower sep [] h k = refl
before_sep-lower sep (c ∷ s) h k =
    ground (arith, lower_code-eq sep c h k, before_sep-lower sep s h k)
