-- ===== src/Ini/Lines.antt =====
-- Lines of a text, for the parser of tew/api/ini_file.py: what splitlines makes of joined lines, and what
-- strip leaves.
use tew.Base.{
  ℕ, ◌==◌, ==_iff, ◌≡◌, refl, ap, ◌∙◌, Bool, false, Option, some, List, [], ◌∷◌, ◌++◌, Text, All,
  arith,
}
use tew.Ini.{
  is_space, is_break, push, split_lines, strip_start, is_empty, strip_end, strip, split_at, join,
  parse_lines, IniData, step_line,
}

-- No character of the line ends it.
abbrev pub Unbroken : Text → Type 0
Unbroken l = All (λ c. is_break c ≡ false) l

not_cr : (c : ℕ) → is_break c ≡ false → (c == 10) ≡ false
unfolding is_break
not_cr c h = ground (arith, h)

-- A line, a line feed, and the rest.
split_line :
    (l rest : Text) → Unbroken l → split_lines false (l ++ 10 ∷ rest) ≡ l ∷ split_lines false rest
unfolding split_lines is_break
split_line [] rest h = refl
split_line (c ∷ l) rest h = rw (h.0, split_line l rest h.1) refl

split_last : (c : ℕ) (l : Text) → Unbroken (c ∷ l) → split_lines false (c ∷ l) ≡ (c ∷ l) ∷ []
unfolding split_lines
split_last c [] h = rw h.0 refl
split_last c (d ∷ l) h = rw h.0 (ap (push c) (split_last d l h.1))

abbrev pub opens_space : Text → Bool
opens_space [] = false
opens_space (c ∷ cs) = is_space c

-- strip keeps a text whose ends are no space.
pub record IsTrimmed (t : Text) : Type 0 where
  pub start : opens_space t ≡ false
  pub stop : strip_end t ≡ t

pub strip_start_lem : (t : Text) → opens_space t ≡ false → strip_start t ≡ t
unfolding strip_start
strip_start_lem [] h = refl
strip_start_lem (c ∷ cs) h = rw h refl

pub strip-IsTrimmed : (t : Text) → IsTrimmed t → strip t ≡ t
unfolding strip
strip-IsTrimmed t h = ap strip_end (strip_start_lem t h.start) ∙ h.stop

not_empty : (xs : Text) (c : ℕ) (ys : Text) → is_empty (xs ++ c ∷ ys) ≡ false
not_empty [] c ys = refl
not_empty (x ∷ xs) c ys = refl

-- A text around a character that is no space.
pub strip_end-append :
    (xs ys : Text) (c : ℕ) → is_space c ≡ false → strip_end (xs ++ c ∷ ys) ≡ xs ++ c ∷ strip_end ys
unfolding strip_end
strip_end-append [] ys c h = ground (arith, h)
strip_end-append (x ∷ xs) ys c h =
    rw (strip_end-append xs ys c h, not_empty xs c (strip_end ys)) refl

pub split_at-append :
    (sep : ℕ) (a b : Text)
    → All (λ c. (c == sep) ≡ false) a
    → split_at sep (a ++ sep ∷ b) ≡ some (a, b)
unfolding split_at
split_at-append sep [] b h = rw ((==_iff sep sep).1 refl) refl
split_at-append sep (c ∷ a) b h = rw (h.0, split_at-append sep a b h.1) refl

-- The lines of a joined text are those that were joined, up to a last one that is empty, which the
-- parser skips.
pub parse_lines-join :
    (ls : List Text) (ini : IniData) (current : Option Text)
    → All Unbroken ls
    → parse_lines (split_lines false (join 10 ls)) ini current ≡ parse_lines ls ini current
unfolding join parse_lines split_lines strip strip_start strip_end
parse_lines-join [] ini current h = refl
parse_lines-join ([] ∷ []) ini current h = refl
parse_lines-join ((c ∷ l) ∷ []) ini current h =
    ap (λ k. parse_lines k ini current) (split_last c l h.0)
parse_lines-join (l ∷ m ∷ ls) ini current h =
    ap (λ k. parse_lines k ini current) (split_line l (join 10 (m ∷ ls)) h.0)
    ∙ parse_lines-join (m ∷ ls) (step_line (strip l) ini current).0
        (step_line (strip l) ini current).1 h.1
