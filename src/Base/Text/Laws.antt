-- ===== src/Base/Text/Laws.antt =====
-- A prefix that was put before a text, and a piece that was put before a separator, are found again.
use Prim.Native.Char.{Char, code}
use Prim.Native.Nat.{ℕ}
use Prim.Native.String
use Prim.Native.String.{String}
use mathlib.Core.Path.{◌≡◌, refl, ap, ◌∙◌}
use mathlib.Core.Bool.{true, false}
use mathlib.Core.Option.{some}
use mathlib.Core.List.{List}
use text.Mathlib.TextLemmas.{nil-append, cons-append}
use trust_registry_build_pip.Base.Defs.{nat_eq, contains, nat_beq_iff}
use trust_registry_build_pip.Base.Text.{strip_prefix, split_first}

pub strip_prefix-append : (p s : String) → strip_prefix p (String.◌++◌ p s) ≡ some s
unfolding strip_prefix
strip_prefix-append String.[] s = ap some (nil-append s)
strip_prefix-append (String.◌∷◌ c p) s =
    ap (strip_prefix (String.◌∷◌ c p)) (cons-append c p s)
    ∙ simp ((nat_beq_iff (code c) (code c)).1 refl) (strip_prefix-append p s)

-- None of the separators stands in the text.
abbrev pub Clean : List ℕ → String → Type 0
Clean separators String.[] = Unit
Clean separators (String.◌∷◌ c s) = (contains separators (code c) ≡ false) × Clean separators s

pub split_first-append :
    (separators : List ℕ) (s : String) (c : Char) (rest : String)
    → Clean separators s
    → contains separators (code c) ≡ true
    → split_first separators (String.◌++◌ s (String.◌∷◌ c rest)) ≡ s
unfolding split_first
split_first-append separators String.[] c rest clean stop =
    ap (split_first separators) (nil-append (String.◌∷◌ c rest)) ∙ simp stop
split_first-append separators (String.◌∷◌ d s) c rest clean stop =
    ap (split_first separators) (cons-append d s (String.◌∷◌ c rest))
    ∙ simp (clean.0, split_first-append separators s c rest clean.1 stop)
