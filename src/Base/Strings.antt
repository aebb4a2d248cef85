-- ===== src/Base/Strings.antt =====
-- Texts as lists of code points, and texts split at a separator.
use Prim.Native.Nat.{ℕ, ◌+◌}
use Prim.Native.Char.{Char, code}
use Prim.Native.String
use Prim.Native.String.{String}
use mathlib.Core.Path.{◌≡◌, refl, sym, ap, ◌∙◌}
use mathlib.Core.Logic.{◌≢◌, ◌↔◌}
use mathlib.Core.Bool.{Bool, true, false, ◌&&◌}
use mathlib.Core.List.{List, [], ◌∷◌}
use native.Mathlib.Omega.{arith}
use text.Mathlib.TextLemmas.{nil-append, cons-append, cons-eq-cons}
use trust_registry_build_pip.Base.Defs.{PartialEq, ◌==◌, nat_eq, if◌then◌else◌, leb}

abbrev pub codes : String → List ℕ
codes String.[] = []
codes (String.◌∷◌ c s) = code c ∷ codes s

abbrev pub codes_beq : List ℕ → List ℕ → Bool
codes_beq [] [] = true
codes_beq (x ∷ xs) (y ∷ ys) = x == y && codes_beq xs ys
codes_beq _ _ = false

pub codes_beq_iff : (xs ys : List ℕ) → (codes_beq xs ys ≡ true) ↔ (xs ≡ ys)
codes_beq_iff [] [] = ground arith
codes_beq_iff [] (y ∷ ys) = ground arith
codes_beq_iff (x ∷ xs) [] = ground arith
codes_beq_iff (x ∷ xs) (y ∷ ys) = ground (arith, codes_beq_iff xs ys)

instance abbrev pub codes_eq : PartialEq (List ℕ)
codes_eq = record { equal = codes_beq; decides = codes_beq_iff }

-- `str::to_lowercase` on ASCII letters.
abbrev pub to_lower : ℕ → ℕ
to_lower c = if leb b'A' c && leb c b'Z' then c + 32 else c

-- The character does not occur in the text.
abbrev pub Free : ℕ → String → Type 0
Free c String.[] = Unit
Free c (String.◌∷◌ x s) = (code x ≢ c) × Free c s

-- A text is cut at the first separator in one way only.
pub separator_inj :
    (x : Char) (s s' t t' : String)
    → Free (code x) s
    → Free (code x) s'
    → String.◌++◌ s (String.◌∷◌ x t) ≡ String.◌++◌ s' (String.◌∷◌ x t')
    → (s ≡ s') × (t ≡ t')
separator_inj x String.[] String.[] t t' f f' e =
    (refl, (cons-eq-cons.0 (sym (nil-append _) ∙ e ∙ nil-append _)).1)
separator_inj x String.[] (String.◌∷◌ y s') t t' f f' e =
    absurd (f'.0 (sym (ap code (cons-eq-cons.0 (sym (nil-append _) ∙ e ∙ cons-append y s' _)).0)))
separator_inj x (String.◌∷◌ y s) String.[] t t' f f' e =
    absurd (f.0 (ap code (cons-eq-cons.0 (sym (cons-append y s _) ∙ e ∙ nil-append _)).0))
separator_inj x (String.◌∷◌ y s) (String.◌∷◌ z s') t t' f f' e =
    let both = cons-eq-cons.0 (sym (cons-append y s _) ∙ e ∙ cons-append z s' _) in
    let rest = separator_inj x s s' t t' f.1 f'.1 both.1 in (cc (both.0, rest.0), rest.1)

hash-append : (t : String) → String.◌++◌ "#" t ≡ String.◌∷◌ "#" t
hash-append t = cons-append "#" String.[] t ∙ ap (String.◌∷◌ "#") (nil-append t)

-- `#` as the separator
pub hash_inj :
    (s s' t t' : String)
    → Free b'#' s
    → Free b'#' s'
    → String.◌++◌ s (String.◌++◌ "#" t) ≡ String.◌++◌ s' (String.◌++◌ "#" t')
    → (s ≡ s') × (t ≡ t')
hash_inj s s' t t' f f' e =
    separator_inj "#" s s' t t' f f'
      (ap (String.◌++◌ s) (sym (hash-append t)) ∙ e ∙ ap (String.◌++◌ s') (hash-append t'))
