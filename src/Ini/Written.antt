-- ===== src/Ini/Written.antt =====
-- Profile data written to a file and read back, for tew/api/ini_file.py.
use tew.Base.{
  ◌≡◌, refl, sym, ap, ◌∙◌, subst, false, Option, none, some, List, [], ◌∷◌, ◌++◌, map, append-nil,
  Dict, Text, text_key, text_same, All, All-append, All-middle, AllPairs,
}
use mathlib.Core.List.{append_assoc}
use tew.Ini.{
  IniData, is_break, strip, parse_lines, parse_ini, strip_start, strip_end, pair_line,
  section_lines, all_lines, serialise_ini,
}
use tew.Ini.Lines.{Unbroken, parse_lines-join}
use tew.Ini.Parsed.{IsPair, IsSection, IsIni, DifferentNames, header_step, pair_step}

-- The names before one of a list are not its name.
names_before :
    {E : Type 0} (xs ys : Dict Text E) (y : Text × E)
    → AllPairs DifferentNames (xs ++ y ∷ ys)
    → All (λ b. text_same b.0 y.0 ≡ false) xs
names_before [] ys y h = tt
names_before (x ∷ xs) ys y h = (All-middle (DifferentNames x) xs ys y h.0, names_before xs ys y h.1)

-- The lines of a section's pairs, after some that were read.
pairs_read :
    (qs done : Dict Text Text) (s : Text) (ini : IniData) (rest : List Text)
    → All IsPair qs
    → AllPairs DifferentNames (done ++ qs)
    → All (λ b. text_same b.0 s ≡ false) ini
    → parse_lines ((map pair_line qs ++ [] ∷ []) ++ rest) (ini ++ (s, done) ∷ []) (some s)
      ≡ parse_lines rest (ini ++ (s, done ++ qs) ∷ []) (some s)
unfolding parse_lines pair_line strip strip_start strip_end
pairs_read [] done s ini rest hq ho new =
    ap (λ d. parse_lines rest (ini ++ (s, d) ∷ []) (some s)) (sym (append-nil done))
pairs_read ((k, v) ∷ qs) done s ini rest hq ho new =
    let one : List (Text × Text) = (k, v) ∷ [] in
    let order = append_assoc done one qs in
    let step = pair_step k v s ini done hq.0.0 hq.0.1 new (names_before done qs (k, v) ho) in
    ap (λ p. parse_lines ((map pair_line qs ++ [] ∷ []) ++ rest) p.0 p.1) step
    ∙ (pairs_read qs (done ++ one) s ini rest hq.1 (subst (AllPairs DifferentNames) (sym order) ho)
          new
        ∙ ap (λ d. parse_lines rest (ini ++ (s, d) ∷ []) (some s)) order)

-- The lines of sections, after some that were read.
sections_read :
    (rest done : IniData) (current : Option Text)
    → All IsSection rest
    → AllPairs DifferentNames (done ++ rest)
    → (parse_lines (all_lines rest) done current).0 ≡ done ++ rest
unfolding all_lines parse_lines section_lines
sections_read [] done current hs ho = sym (append-nil done)
sections_read ((s, qs) ∷ rest) done current hs ho =
    let one : IniData = (s, qs) ∷ [] in
    let order = append_assoc done one rest in
    let new = names_before done rest (s, qs) ho in
    ap (λ p. (parse_lines ((map pair_line qs ++ [] ∷ []) ++ all_lines rest) p.0 p.1).0)
      (header_step s done current hs.0.name new)
    ∙ (ap (λ p. p.0) (pairs_read qs [] s done (all_lines rest) hs.0.pairs hs.0.distinct new)
        ∙ (sections_read rest (done ++ one) (some s) hs.1
              (subst (AllPairs DifferentNames) (sym order) ho)
            ∙ order))

header-Unbroken : (s : Text) → Unbroken s → Unbroken (91 ∷ s ++ 93 ∷ [])
unfolding is_break
header-Unbroken s h = (refl, All-append _ s (93 ∷ []) h (refl, tt))

pairs-Unbroken : (qs : Dict Text Text) → All IsPair qs → All Unbroken (map pair_line qs ++ [] ∷ [])
unfolding pair_line is_break
pairs-Unbroken [] h = (tt, tt)
pairs-Unbroken ((k, v) ∷ qs) h =
    (All-append _ k (61 ∷ v) h.0.0.plain.unbroken (refl, h.0.1.unbroken), pairs-Unbroken qs h.1)

lines-Unbroken : (ini : IniData) → All IsSection ini → All Unbroken (all_lines ini)
unfolding all_lines section_lines
lines-Unbroken [] h = tt
lines-Unbroken ((s, qs) ∷ ini) h = (
  header-Unbroken s h.0.name.plain.unbroken,
  All-append Unbroken (map pair_line qs ++ [] ∷ []) (all_lines ini) (pairs-Unbroken qs h.0.pairs)
      (lines-Unbroken ini h.1),
)

-- Data of distinct small names that have no outer blank, no line end and no character that the
-- format uses, with values that have no outer blank and no line end, is read back from the text that
-- is written for it, in the same order.
pub parse_ini-serialise_ini : (ini : IniData) → IsIni ini → parse_ini (serialise_ini ini) ≡ ini
unfolding parse_ini serialise_ini
parse_ini-serialise_ini ini h =
    ap (λ p. p.0) (parse_lines-join (all_lines ini) [] none (lines-Unbroken ini h.sections))
    ∙ sections_read ini [] none h.sections h.distinct
