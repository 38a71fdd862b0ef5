-- ===== src/Fs.antt =====
-- find_file_ci of tew/fs.py, with os.path.split and os.path.join. What the host's directories hold is a parameter.
use tew.Base.{
  ℕ, zero, suc, ◌+◌, ◌≤◌, ◌<◌, ◌==◌, ◌≡◌, ◌≢◌, refl, Bool, false, Bool-cases, inl, inr,
  if◌then◌else◌, Option, none, some, List, [], ◌∷◌, ◌++◌, length, Text, not, ◌||◌, ◌&&◌, text_same,
  Result, ok, err, out_of_fuel, arith,
}
use tew.Ini.{lower, is_empty, starts_with}

pub record Host : Type 0 where
  -- os.path.exists
  pub exists : Text → Bool
  -- os.listdir, where it does not raise
  pub listdir : Text → Option (List Text)

abbrev slash : ℕ
slash = 47

-- The path up to its last slash, and what follows.
unfoldable pub split_last : Text → Text × Text
split_last [] = ([], [])
split_last (c ∷ cs) =
    let r = split_last cs in
    if (c == slash) || not (is_empty r.0) then (c ∷ r.0, r.1) else ([], c ∷ r.1)

-- head.rstrip("/")
unfoldable pub strip_slashes : Text → Text
strip_slashes [] = []
strip_slashes (c ∷ cs) =
    let r = strip_slashes cs in if (c == slash) && is_empty r then [] else c ∷ r

abbrev unless_empty : Text → Text → Text
unless_empty [] t = t
unless_empty (c ∷ cs) t = c ∷ cs

-- os.path.split; a head of slashes only stays
unfoldable pub split : Text → Text × Text
split path = let r = split_last path in (unless_empty (strip_slashes r.0) r.0, r.1)

abbrev ends_in_slash : Text → Bool
ends_in_slash [] = false
ends_in_slash (c ∷ []) = c == slash
ends_in_slash (c ∷ d ∷ cs) = ends_in_slash (d ∷ cs)

-- os.path.join of two parts
unfoldable pub join : Text → Text → Text
join a b =
    if starts_with slash b
    then b
    else if is_empty a || ends_in_slash a
    then a ++ b
    else a ++ slash ∷ b

-- The first entry of the directory with the name.
unfoldable pub find_entry : Text → Text → List Text → Option Text
find_entry name dir [] = none
find_entry name dir (e ∷ es) =
    if text_same (lower e) name then some (join dir e) else find_entry name dir es

abbrev entries_in : Text → Text → Option (List Text) → Option Text
entries_in name dir none = none
entries_in name dir (some es) = find_entry name dir es

abbrev in_directory : Host → Text → Result (Option Text) → Result (Option Text)
in_directory host tail (err e) = err e
in_directory host tail (ok none) = ok none
in_directory host tail (ok (some dir)) = ok (entries_in (lower tail) dir (host.listdir dir))

unfoldable pub find_from : Host → ℕ → Text → Result (Option Text)
find_from host zero path = err out_of_fuel
find_from host (suc rounds) path =
    if host.exists path
    then ok (some path)
    else if is_empty (split path).1
    then ok none
    else in_directory host (split path).1 (find_from host rounds (split path).0)

-- The head of a path with a tail is shorter, so as many rounds as the path has characters, and one more, are enough.
unfoldable pub find_file_ci : Host → Text → Result (Option Text)
find_file_ci host path = find_from host (suc (length path)) path

split_last-length :
    (path : Text) → length (split_last path).0 + length (split_last path).1 ≡ length path
unfolding split_last
split_last-length [] = refl
split_last-length (c ∷ cs) = ground (arith, split_last-length cs)

strip_slashes-length : (t : Text) → length (strip_slashes t) ≤ length t
unfolding strip_slashes
strip_slashes-length [] = omega arith
strip_slashes-length (c ∷ cs) = ground (arith, strip_slashes-length cs)

unless_empty-length : (s t : Text) → length s ≤ length t → length (unless_empty s t) ≤ length t
unless_empty-length [] t h = omega arith
unless_empty-length (c ∷ cs) t h = h

tail_counts : (t : Text) → is_empty t ≡ false → 0 < length t
tail_counts [] e = cc
tail_counts (c ∷ cs) e = omega arith

split-shorter :
    (path : Text) → is_empty (split path).1 ≡ false → length (split path).0 < length path
unfolding split
split-shorter path e =
    let r = split_last path in
    let head = unless_empty-length (strip_slashes r.0) r.0 (strip_slashes-length r.0) in
    omega (arith, head, split_last-length path, tail_counts r.1 e)

in_directory_ends :
    (host : Host) (tail : Text) (r : Result (Option Text))
    → r ≢ err out_of_fuel
    → in_directory host tail r ≢ err out_of_fuel
in_directory_ends host tail (err e) h = h
in_directory_ends host tail (ok none) h = λ e. cc
in_directory_ends host tail (ok (some dir)) h = λ e. cc

find_from_ends :
    (host : Host) (rounds : ℕ) (path : Text)
    → length path < rounds
    → find_from host rounds path ≢ err out_of_fuel
unfolding find_from
find_from_ends host zero path h = absurd (omega arith)
find_from_ends host (suc rounds) path h = elim (Bool-cases (host.exists path)) [
  | inl there ↦ rw there (λ e. cc)
  | inr missing ↦ elim (Bool-cases (is_empty (split path).1)) [
    | inl root ↦ rw (missing, root) (λ e. cc)
    | inr named ↦
        rw (missing, named)
          (in_directory_ends host (split path).1 _ (
            find_from_ends host rounds (split path).0 (omega (arith, h, split-shorter path named))))
  ]
]

-- The search for a path ends, whatever the host's directories hold.
pub find_file_ci_ends : (host : Host) (path : Text) → find_file_ci host path ≢ err out_of_fuel
unfolding find_file_ci
find_file_ci_ends host path = find_from_ends host (suc (length path)) path (omega arith)
