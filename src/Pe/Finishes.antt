-- ===== src/Pe/Finishes.antt =====
-- Rules for parsers that do not run out of rounds, for tew/pe.
use tew.Base.{
  ℕ, ◌+◌, ltb, ◌≡◌, ◌≢◌, refl, Bool, true, false, if◌then◌else◌, length, drop, Result, ok, err,
  out_of_fuel, struct_error, index_error, ◌>>=◌, pure, raise,
}
use tew.Pe.{unpack16, unpack32}
use tew.Pe.Sections.{Bytes, Parse, word_at, dword_at, qword_at, at_index}

-- A parser that does not run out of rounds.
pub record Finishes {A : Type 0} (m : Parse A) : Type 0 where
  pub at : (m tt).0 ≢ err out_of_fuel

module _ {A : Type 0} where
  pub Finishes-pure : (a : A) → Finishes (pure {W = Unit {0}} a)
  unfolding pure
  Finishes-pure a = record { at = λ e. cc }

  pub Finishes-raise : Finishes (raise {W = Unit {0}} {A = A} struct_error)
  unfolding raise
  Finishes-raise = record { at = λ e. cc }

  pub Finishes-raised : Finishes (raise {W = Unit {0}} {A = A} index_error)
  unfolding raise
  Finishes-raised = record { at = λ e. cc }

  pub Finishes-if :
      (test : Bool) (first second : Parse A)
      → Finishes first
      → (test ≡ false → Finishes second)
      → Finishes (if test then first else second)
  Finishes-if true first second h k = h
  Finishes-if false first second h k = k refl

  pub Finishes-guard :
      (test : Bool) (a : A) → Finishes (if test then raise {W = Unit {0}} struct_error else pure a)
  Finishes-guard true a = Finishes-raise
  Finishes-guard false a = Finishes-pure a

module _ {A B : Type 0} where
  pub Finishes-proceed :
      (r : Result A × Unit {0}) (next : A → Parse B)
      → r.0 ≢ err out_of_fuel
      → ((a : A) → Finishes (next a))
      → (◌>>=◌ (λ _. r) next tt).0 ≢ err out_of_fuel
  unfolding ◌>>=◌
  Finishes-proceed (ok a, w) next h rest = (rest a).at
  Finishes-proceed (err x, w) next h rest = λ e. h (cc)

  pub Finishes-bind :
      (m : Parse A) (next : A → Parse B)
      → Finishes m
      → ((a : A) → Finishes (next a))
      → Finishes (m >>= next)
  unfolding ◌>>=◌
  Finishes-bind m next h rest = record { at = Finishes-proceed (m tt) next h.at rest }

pub word_at-Finishes : (bytes : Bytes) (offset : ℕ) → Finishes (word_at bytes offset)
unfolding word_at
word_at-Finishes bytes offset =
    Finishes-guard (ltb (length bytes) (offset + 2)) (unpack16 (drop offset bytes))

pub dword_at-Finishes : (bytes : Bytes) (offset : ℕ) → Finishes (dword_at bytes offset)
unfolding dword_at
dword_at-Finishes bytes offset =
    Finishes-guard (ltb (length bytes) (offset + 4)) (unpack32 (drop offset bytes))

pub qword_at-Finishes : (bytes : Bytes) (offset : ℕ) → Finishes (qword_at bytes offset)
unfolding qword_at
qword_at-Finishes bytes offset = Finishes-guard (ltb (length bytes) (offset + 8)) _

pub at_index-Finishes : (bytes : Bytes) (offset : ℕ) → Finishes (at_index bytes offset)
unfolding at_index
at_index-Finishes bytes offset =
    Finishes-if (ltb offset (length bytes)) _ _ (Finishes-pure _) λ _. Finishes-raised

pub ruleset finishes_rules = (
  Finishes-pure, Finishes-bind, word_at-Finishes, dword_at-Finishes, qword_at-Finishes,
  at_index-Finishes,
)
