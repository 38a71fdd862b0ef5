-- ===== src/Ini/Parsed.antt =====
-- Profile data that can be written and read back, for tew/api/ini_file.py.
use tew.Base.{
  ◌==◌, ◌≡◌, refl, ap, ◌∙◌, false, ◌||◌, Option, none, some, [], ◌∷◌, ◌++◌, Dict, Text, text_key,
  text_same, text_same_refl, All, AllPairs, get, put, arith,
}
use tew.Ini.{
  IniData, is_space, lower, strip_start, strip_end, strip, step_line, parse_pair, store_pair,
  set_value, open_section, starts_with,
}
use tew.Ini.Lines.{
  Unbroken, IsTrimmed, opens_space, strip_start_lem, strip-IsTrimmed, strip_end-append,
  split_at-append,
}

-- A name or a value that the file can hold as it stands.
pub record IsPlain (t : Text) : Type 0 where
  pub trimmed : IsTrimmed t
  pub unbroken : Unbroken t

-- A section's name.
pub record IsSectionName (t : Text) : Type 0 where
  pub plain : IsPlain t
  pub small : lower t ≡ t
  pub unclosed : All (λ c. (c == 93) ≡ false) t

-- A key: not taken for a comment or a header.
pub record IsKey (t : Text) : Type 0 where
  pub plain : IsPlain t
  pub small : lower t ≡ t
  pub unequal : All (λ c. (c == 61) ≡ false) t
  pub opens : (starts_with 59 t || starts_with 35 t || starts_with 91 t) ≡ false

abbrev pub IsPair : Text × Text → Type 0
IsPair (k, v) = IsKey k × IsPlain v

abbrev pub DifferentNames : {V : Type 0} → Text × V → Text × V → Type 0
DifferentNames a b = text_same a.0 b.0 ≡ false

pub record IsSection (s : Text × Dict Text Text) : Type 0 where
  pub name : IsSectionName s.0
  pub pairs : All IsPair s.1
  pub distinct : AllPairs DifferentNames s.1

pub record IsIni (ini : IniData) : Type 0 where
  pub sections : All IsSection ini
  pub distinct : AllPairs DifferentNames ini

-- `put` of a new name adds it at the end.
put_new :
    {V : Type 0} (a : Text) (v : V) (d : Dict Text V)
    → All (λ b. text_same b.0 a ≡ false) d
    → put a v d ≡ d ++ (a, v) ∷ []
unfolding put
put_new a v [] h = refl
put_new a v ((b, w) ∷ d) h = rw h.0 (ap (λ l. (b, w) ∷ l) (put_new a v d h.1))

get_new :
    {V : Type 0} (a : Text) (d : Dict Text V)
    → All (λ b. text_same b.0 a ≡ false) d
    → get a d ≡ none
unfolding get
get_new a [] h = refl
get_new a ((b, w) ∷ d) h = rw h.0 (get_new a d h.1)

-- The last item, of a name that no other has.
get_last :
    {V : Type 0} (a : Text) (v : V) (d : Dict Text V)
    → All (λ b. text_same b.0 a ≡ false) d
    → get a (d ++ (a, v) ∷ []) ≡ some v
unfolding get
get_last a v [] h = rw (text_same_refl a) refl
get_last a v ((b, w) ∷ d) h = rw h.0 (get_last a v d h.1)

put_last :
    {V : Type 0} (a : Text) (v w : V) (d : Dict Text V)
    → All (λ b. text_same b.0 a ≡ false) d
    → put a w (d ++ (a, v) ∷ []) ≡ d ++ (a, w) ∷ []
unfolding put
put_last a v w [] h = rw (text_same_refl a) refl
put_last a v w ((b, u) ∷ d) h = rw h.0 (ap (λ l. (b, u) ∷ l) (put_last a v w d h.1))

strip_header : (s : Text) → strip (91 ∷ s ++ 93 ∷ []) ≡ 91 ∷ s ++ 93 ∷ []
unfolding strip strip_start strip_end is_space
strip_header s = strip_end-append (91 ∷ s) [] 93 refl

61-not_space : is_space 61 ≡ false
unfolding is_space
61-not_space = refl

opens_space-append : (k v : Text) → opens_space k ≡ false → opens_space (k ++ 61 ∷ v) ≡ false
unfolding is_space
opens_space-append [] v h = refl
opens_space-append (c ∷ k) v h = h

strip_pair : (k v : Text) → IsTrimmed k → IsTrimmed v → strip (k ++ 61 ∷ v) ≡ k ++ 61 ∷ v
unfolding strip
strip_pair k v hk hv =
    ap strip_end (strip_start_lem _ (opens_space-append k v hk.start))
    ∙ (strip_end-append k v 61 61-not_space ∙ ap (λ w. k ++ 61 ∷ w) hv.stop)

open_new :
    (s : Text) (ini : IniData)
    → All (λ b. text_same b.0 s ≡ false) ini
    → open_section s ini ≡ ini ++ (s, []) ∷ []
unfolding open_section
open_new s ini new =
    ap (λ o. elim o as (λ _. IniData) [ none ↦ put s [] ini | some keys ↦ ini ]) (get_new s ini new)
    ∙ put_new s [] ini new

set_new :
    (k v s : Text) (ini : IniData) (pairs : Dict Text Text)
    → All (λ b. text_same b.0 s ≡ false) ini
    → All (λ b. text_same b.0 k ≡ false) pairs
    → set_value s k v (ini ++ (s, pairs) ∷ []) ≡ ini ++ (s, pairs ++ (k, v) ∷ []) ∷ []
unfolding set_value
set_new k v s ini pairs new fresh =
    rw (get_last s pairs ini new, put_new k v pairs fresh) (put_last s pairs _ ini new)

-- A line that starts like a key is a pair.
pair_line_step :
    (k v : Text) (ini : IniData) (current : Option Text)
    → (starts_with 59 k || starts_with 35 k || starts_with 91 k) ≡ false
    → step_line (k ++ 61 ∷ v) ini current ≡ (parse_pair (k ++ 61 ∷ v) ini current, current)
pair_line_step [] v ini current h = refl
pair_line_step (c ∷ k) v ini current h = ground (arith, h)

pair_value :
    (k v s : Text) (ini : IniData)
    → IsKey k
    → IsPlain v
    → parse_pair (k ++ 61 ∷ v) ini (some s) ≡ set_value s k v ini
unfolding parse_pair
pair_value k v s ini hk hv =
    ap (store_pair s ini) (split_at-append 61 k v hk.unequal)
    ∙ rw (strip-IsTrimmed k hk.plain.trimmed, strip-IsTrimmed v hv.trimmed, hk.small) refl

-- The line of a header, and of a pair, at the end of what was read so far.
pub header_step :
    (s : Text) (ini : IniData) (current : Option Text)
    → IsSectionName s
    → All (λ b. text_same b.0 s ≡ false) ini
    → step_line (strip (91 ∷ s ++ 93 ∷ [])) ini current ≡ (ini ++ (s, []) ∷ [], some s)
header_step s ini current h new =
    ap (λ l. step_line l ini current) (strip_header s)
    ∙ rw
        (
          split_at-append 93 s [] h.unclosed,
          strip-IsTrimmed s h.plain.trimmed,
          h.small,
          open_new s ini new,
        )
        refl

pub pair_step :
    (k v s : Text) (ini : IniData) (pairs : Dict Text Text)
    → IsKey k
    → IsPlain v
    → All (λ b. text_same b.0 s ≡ false) ini
    → All (λ b. text_same b.0 k ≡ false) pairs
    → step_line (strip (k ++ 61 ∷ v)) (ini ++ (s, pairs) ∷ []) (some s)
      ≡ (ini ++ (s, pairs ++ (k, v) ∷ []) ∷ [], some s)
pair_step k v s ini pairs hk hv new fresh =
    ap (λ l. step_line l (ini ++ (s, pairs) ∷ []) (some s))
      (strip_pair k v hk.plain.trimmed hv.trimmed)
    ∙ (pair_line_step k v (ini ++ (s, pairs) ∷ []) (some s) hk.opens
        ∙ ap (λ i. (i, some s)) (pair_value k v s _ hk hv ∙ set_new k v s ini pairs new fresh))
