-- ===== src/Agent/Paths.antt =====
-- crates/nexus-agent/src/peer_channel.rs: the names of the files of a clip. A text is the list of the
-- codes of its characters, and a path the list of its components.
pub mod Names
pub mod Safe
use nexus_kvm.Base.{
  ℕ, ◌≡◌, Bool, true, false, not, ◌&&◌, ◌||◌, Option, none, some, List, [], ◌∷◌, ◌++◌, map, leb,
  ◌==◌, if◌then◌else◌, is_empty,
}
use nexus_kvm.Common.Auth.{take}

abbrev pub Text : Type 0
Text = List ℕ

abbrev pub is_slash : ℕ → Bool
is_slash c = c == 47

-- The separators of `name.split(['/', '\\'])`.
abbrev pub is_separator : ℕ → Bool
is_separator c = c == 47 || c == 92

abbrev pub is_dot : Text → Bool
is_dot (c ∷ []) = c == 46
is_dot _ = false

abbrev pub is_dot_dot : Text → Bool
is_dot_dot (c ∷ d ∷ []) = c == 46 && d == 46
is_dot_dot _ = false

-- One more character in front of the first part.
abbrev pub extend : ℕ → List Text → List Text
extend c [] = (c ∷ []) ∷ []
extend c (part ∷ parts) = (c ∷ part) ∷ parts

-- `split` of a text
unfoldable pub split : (ℕ → Bool) → Text → List Text
split p [] = [] ∷ []
split p (c ∷ t) = let rest = split p t in if p c then [] ∷ rest else extend c rest

-- `Path::file_name`: the last component, if it is a normal one.
unfoldable pub last_name : Option Text → List Text → Option Text
last_name found [] = found
last_name found (part ∷ parts) =
    let skipped = last_name found parts in
    let parent = last_name none parts in
    let named = last_name (some part) parts in
    if is_empty part || is_dot part then skipped else if is_dot_dot part then parent else named

unfoldable pub file_name : Text → Option Text
unfolding split last_name
file_name name = last_name none (split is_slash name)

-- ASCII letters and digits, and `.`, `-`, `_`, ` `.
unfoldable pub is_allowed : ℕ → Bool
is_allowed c =
    (leb 48 c && leb c 57)
    || ((leb 65 c && leb c 90)
        || ((leb 97 c && leb c 122) || (c == 46 || (c == 45 || (c == 95 || c == 32)))))

unfoldable pub clean : ℕ → ℕ
unfolding is_allowed
clean c = if is_allowed c then c else 95

-- `trim().is_empty()` of a cleaned name, whose only white space is the blank.
unfoldable pub is_blank : Text → Bool
is_blank [] = true
is_blank (c ∷ t) = c == 32 && is_blank t

abbrev pub name_limit : ℕ
name_limit = 128

unfoldable pub cleaned_name : Text → Option Text
unfolding clean is_blank
cleaned_name base =
    let cleaned = take name_limit (map clean base) in
    if is_empty base || (is_dot base || is_dot_dot base)
    then none
    else if is_blank cleaned
    then none
    else some cleaned

unfoldable pub safe_file_name : Text → Option Text
unfolding file_name cleaned_name
safe_file_name name = elim (file_name name) [ none ↦ none | some base ↦ cleaned_name base ]

-- `parts.push(first)`
abbrev pub in_front : Option Text → Option (List Text) → Option (List Text)
in_front none later = none
in_front (some first) none = none
in_front (some first) (some later) = some (first ∷ later)

-- The loop of `safe_rel_path`.
unfoldable pub safe_parts : List Text → Option (List Text)
unfolding safe_file_name
safe_parts [] = some []
safe_parts (part ∷ parts) =
    let later = safe_parts parts in
    if is_empty part || is_dot part
    then later
    else if is_dot_dot part
    then none
    else in_front (safe_file_name part) later

-- `parts.join("/")`
unfoldable pub join_parts : List Text → Text
join_parts [] = []
join_parts (part ∷ []) = part
join_parts (part ∷ next ∷ parts) = part ++ 47 ∷ join_parts (next ∷ parts)

unfoldable pub joined : Option (List Text) → Option Text
unfolding join_parts
joined none = none
joined (some []) = none
joined (some (part ∷ parts)) = some (join_parts (part ∷ parts))

unfoldable pub safe_rel_path : Text → Option Text
unfolding safe_parts split joined
safe_rel_path name = joined (safe_parts (split is_separator name))

-- The path below `base`, component by component.
unfoldable pub confined : List Text → Text → Option (List Text)
unfolding safe_rel_path split
confined base name = elim (safe_rel_path name) [
  | none ↦ none
  | some rel ↦ some (base ++ split is_slash rel)
]
