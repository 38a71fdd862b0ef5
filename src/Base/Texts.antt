-- ===== src/Base/Texts.antt =====
-- Text literals and the operations on texts that several components use.
use Prim.Native.Char.{code}
use Prim.Native.String.{String}
use Prim.Native.Nat.{ℕ, zero, suc, ◌+◌, ◌/◌, ◌%◌}
use mathlib.Core.Bool.{Bool, true, false, ◌&&◌, ◌||◌}
use mathlib.Core.List.{List, [], ◌∷◌, ◌++◌}
use tew.Base.Tests.{Text, text_same, ◌==◌, ltb, if◌then◌else◌}

-- The code points of a literal.
abbrev pub codes : String → Text
codes String.[] = []
codes (String.◌∷◌ c s) = code c ∷ codes s

-- text.startswith(prefix)
abbrev pub has_prefix : Text → Text → Bool
has_prefix [] t = true
has_prefix (c ∷ p) [] = false
has_prefix (c ∷ p) (d ∷ t) = (c == d) && has_prefix p t

-- text.endswith(suffix)
abbrev pub has_suffix : Text → Text → Bool
has_suffix p [] = text_same [] p
has_suffix p (c ∷ t) = text_same (c ∷ t) p || has_suffix p t

-- A Python `set` of texts: t in s, and s.add(t).
abbrev pub has_text : Text → List Text → Bool
has_text t [] = false
has_text t (x ∷ xs) = text_same x t || has_text t xs

abbrev pub add_text : Text → List Text → List Text
add_text t xs = if has_text t xs then xs else xs ++ t ∷ []

-- str(n): the digits in front of those that are there. A number has fewer digits than its successor
-- is large, so `suc n` rounds are enough.
unfoldable pub digits : ℕ → ℕ → Text → Text
digits zero n after = after
digits (suc rounds) n after =
    let more = digits rounds (n / 10) ((48 + n % 10) ∷ after) in
    if ltb n 10 then (48 + n) ∷ after else more

abbrev pub decimal : ℕ → Text
decimal n = digits (suc n) n []
