-- ===== src/Ini/Edited.antt =====
-- Profile data changed by write_profile_string and write_profile_section of tew/api/ini_file.py.
use tew.Base.{
  ◌≡◌, refl, sym, Bool, Bool-cases, Option, none, some, inl, inr, Option-cases, [], ◌∷◌, Dict, Text,
  text_key, text_same, AllPairs, get, put, pop, get_or, get-put, get-pop, ◌&&◌, if◌then◌else◌,
  text_same_iff, All-put, All-pop, All-get, AllPairs-pop, arith,
}
use tew.Ini.{IniData, lower, set_value, open_section, edit_profile, read_profile_string}
use tew.Ini.Parsed.{IsPlain, IsSectionName, IsKey, IsPair, IsSection, IsIni, DifferentNames}

put_distinct :
    {E : Type 0} (a : Text) (v : E) (d : Dict Text E)
    → AllPairs DifferentNames d
    → AllPairs DifferentNames (put a v d)
unfolding put
put_distinct a v [] h = (tt, tt)
put_distinct a v ((b, w) ∷ d) h = elim (Bool-cases (text_same b a)) [
  | inl hit ↦ rw hit h
  | inr miss ↦ rw miss (All-put (DifferentNames (b, w)) a v d miss h.0, put_distinct a v d h.1)
]

put-IsIni :
    (s : Text) (pairs : Dict Text Text) (ini : IniData)
    → IsSection (s, pairs)
    → IsIni ini
    → IsIni (put s pairs ini)
put-IsIni s pairs ini hs h = record {
  sections = All-put IsSection s pairs ini hs h.sections;
  distinct = put_distinct s pairs ini h.distinct;
}

pop-IsIni : (s : Text) (ini : IniData) → IsIni ini → IsIni (pop s ini)
pop-IsIni s ini h = record {
  sections = All-pop IsSection s ini h.sections;
  distinct = AllPairs-pop DifferentNames s ini h.distinct;
}

empty-IsSection : (s : Text) → IsSectionName s → IsSection (s, [])
empty-IsSection s h = record { name = h; pairs = tt; distinct = tt }

-- The pairs of a section, as the code reads them.
IsSection-get_or :
    (s : Text) (ini : IniData) → IsSectionName s → IsIni ini → IsSection (s, get_or (get s ini) [])
IsSection-get_or s ini hs h = elim (Option-cases (get s ini)) [
  | inl e ↦ rw e (empty-IsSection s hs)
  | inr (pairs, e) ↦ rw e (All-get IsSection s pairs ini h.sections e)
]

open_section-IsIni :
    (s : Text) (ini : IniData) → IsSectionName s → IsIni ini → IsIni (open_section s ini)
unfolding open_section
open_section-IsIni s ini hs h =
    elim (get s ini)
      as (λ o. IsIni (elim o as (λ _. IniData) [ none ↦ put s [] ini | some keys ↦ ini ])) [
        | none ↦ put-IsIni s [] ini (empty-IsSection s hs) h
        | some keys ↦ h
      ]

set_value-IsIni :
    (s k v : Text) (ini : IniData)
    → IsSectionName s
    → IsKey k
    → IsPlain v
    → IsIni ini
    → IsIni (set_value s k v ini)
unfolding set_value
set_value-IsIni s k v ini hs hk hv h =
    let old = IsSection-get_or s ini hs h in
    let new : IsSection (s, put k v (get_or (get s ini) [])) = record {
      name = hs;
      pairs = All-put IsPair k v _ (hk, hv) old.pairs;
      distinct = put_distinct k v _ old.distinct;
    } in
    put-IsIni s _ ini new h

pop_key-IsSection :
    (s k : Text) (pairs : Dict Text Text) → IsSection (s, pairs) → IsSection (s, pop k pairs)
pop_key-IsSection s k pairs h = record {
  name = h.name;
  pairs = All-pop IsPair k pairs h.pairs;
  distinct = AllPairs-pop DifferentNames k pairs h.distinct;
}

pop_key-IsIni :
    (s k : Text) (ini : IniData) (o : Option (Dict Text Text))
    → get s ini ≡ o
    → IsIni ini
    → IsIni (elim o as (λ _. IniData) [ none ↦ ini | some pairs ↦ put s (pop k pairs) ini ])
pop_key-IsIni s k ini none e h = h
pop_key-IsIni s k ini (some pairs) e h =
    put-IsIni s (pop k pairs) ini
      (pop_key-IsSection s k pairs (All-get IsSection s pairs ini h.sections e)) h

-- Names and a value that the file can hold.
abbrev pub IsEdit : Text → Option Text → Option Text → Type 0
IsEdit app none value = IsSectionName (lower app)
IsEdit app (some key) none = IsSectionName (lower app)
IsEdit app (some key) (some value) = IsSectionName (lower app) × IsKey (lower key) × IsPlain value

pub edit_profile-IsIni :
    (app : Text) (key value : Option Text) (ini : IniData)
    → IsEdit app key value
    → IsIni ini
    → IsIni (edit_profile app key value ini)
unfolding edit_profile
edit_profile-IsIni app none value ini e h = pop-IsIni (lower app) ini h
edit_profile-IsIni app (some key) none ini e h =
    pop_key-IsIni (lower app) (lower key) ini (get (lower app) ini) refl h
edit_profile-IsIni app (some key) (some value) ini e h =
    set_value-IsIni (lower app) (lower key) value _ e.0 e.1 e.2
      (open_section-IsIni (lower app) ini e.0 h)

-- Whether a write of `app` and `key` is about the value that `a` and `k` name.
abbrev pub covers : Text → Option Text → Text → Text → Bool
covers app none a k = text_same (lower app) (lower a)
covers app (some key) a k = text_same (lower app) (lower a) && text_same (lower key) (lower k)

-- What is read there afterwards.
abbrev pub new_value : Option Text → Option Text → Text → Text
new_value none value default = default
new_value (some key) value default = get_or value default

delete_read :
    (s k a j default : Text) (ini : IniData) (o : Option (Dict Text Text))
    → get s ini ≡ o
    → get_or
        (get j (
          get_or
            (get a (elim o as (λ _. IniData) [ none ↦ ini | some pairs ↦ put s (pop k pairs) ini ]))
            []))
        default
      ≡ (if text_same s a && text_same k j
          then default
          else get_or (get j (get_or (get a ini) [])) default)
unfolding get
delete_read s k a j default ini none e = ground (arith, e, text_same_iff s a)
delete_read s k a j default ini (some pairs) e =
    ground (arith, e, text_same_iff s a, get-put s a (pop k pairs) ini, get-pop k j pairs)

pop_read :
    (s a j default : Text) (ini : IniData)
    → get_or (get j (get_or (get a (pop s ini)) [])) default
      ≡ (if text_same s a then default else get_or (get j (get_or (get a ini) [])) default)
unfolding get
pop_read s a j default ini = ground (arith, get-pop s a ini)

-- The pairs of a section are none where it is missing, as after it is opened.
open_section_read :
    (s a : Text) (ini : IniData) → get_or (get a (open_section s ini)) [] ≡ get_or (get a ini) []
unfolding open_section
open_section_read s a ini = elim (Option-cases (get s ini)) [
  | inl e ↦ rw (e, open_section) (ground (arith, get-put s a [] ini, e, text_same_iff s a))
  | inr (pairs, e) ↦ rw (e, open_section) refl
]

set_read :
    (s k v a j default : Text) (ini : IniData)
    → get_or (get j (get_or (get a (set_value s k v ini)) [])) default ≡ (
        if text_same s a && text_same k j
        then v
        else get_or (get j (get_or (get a ini) [])) default)
unfolding set_value
set_read s k v a j default ini = ground (
  arith,
  text_same_iff s a,
  get-put s a (put k v (get_or (get s ini) [])) ini,
  get-put k j v (get_or (get s ini) []),
)

pub read-edit_profile :
    (app : Text) (key value : Option Text) (ini : IniData) (a k default : Text)
    → read_profile_string (edit_profile app key value ini) (some a) (some k) default ≡ (
        if covers app key a k
        then new_value key value default
        else read_profile_string ini (some a) (some k) default)
unfolding read_profile_string edit_profile
read-edit_profile app none value ini a k default =
    pop_read (lower app) (lower a) (lower k) default ini
read-edit_profile app (some key) none ini a k default =
    delete_read (lower app) (lower key) (lower a) (lower k) default ini (get (lower app) ini) refl
read-edit_profile app (some key) (some value) ini a k default =
    rw (sym (open_section_read (lower app) (lower a) ini)) (
      set_read (lower app) (lower key) value (lower a) (lower k) default
        (open_section (lower app) ini))
