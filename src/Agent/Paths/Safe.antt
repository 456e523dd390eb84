-- ===== src/Agent/Paths/Safe.antt =====
-- Whole paths: `safe_rel_path` and `confined` in crates/nexus-agent/src/peer_channel.rs.
use nexus_kvm.Base.{
  ℕ, ◌≡◌, ◌≢◌, refl, ◌∙◌, ap, subst, Bool, true, false, ◌||◌, Option, none, some, List, [], ◌∷◌,
  ◌++◌, is_empty, length, All, All-append, length-append, arith, Option-cases, inl, inr, if_intro,
}
use nexus_kvm.Agent.Paths.{
  Text, is_slash, is_separator, is_dot, is_dot_dot, split, in_front, safe_file_name, safe_parts,
  join_parts, joined, safe_rel_path, confined, name_limit,
}
use nexus_kvm.Agent.Paths.Names.{
  Allowed, IsSafe, Allowed-no_separator, Allowed-no_slash, split-Allowed, safe_file_name-IsSafe,
  safe_file_name_kept, IsSafe-full, long_name, safe_file_name-Allowed, cleaned_name_cut,
}

in_front-IsSafe :
    (first : Option Text) (later : Option (List Text)) (parts : List Text)
    → ((t : Text) → first ≡ some t → IsSafe t)
    → ((ts : List Text) → later ≡ some ts → All IsSafe ts)
    → in_front first later ≡ some parts
    → All IsSafe parts
in_front-IsSafe none later parts one more e = cc
in_front-IsSafe (some t) none parts one more e = cc
in_front-IsSafe (some t) (some ts) parts one more e =
    let same : t ∷ ts ≡ parts = cc in subst (All IsSafe) same (one t refl, more ts refl)

pub safe_parts-IsSafe : (parts found : List Text) → safe_parts parts ≡ some found → All IsSafe found
unfolding safe_parts
safe_parts-IsSafe [] found = λ e. let same : [] ≡ found = cc in subst (All IsSafe) same tt
safe_parts-IsSafe (part ∷ parts) found =
    if_intro {A = Option (List Text)} (λ o. o ≡ some found → All IsSafe found)
      (is_empty part || is_dot part) (λ _. safe_parts-IsSafe parts found)
      (λ _.
        if_intro {A = Option (List Text)} (λ o. o ≡ some found → All IsSafe found) (is_dot_dot part)
          (λ _ e. cc)
          (λ _.
            in_front-IsSafe (safe_file_name part) (safe_parts parts) found
              (λ t. safe_file_name-IsSafe part t) (λ ts. safe_parts-IsSafe parts ts)))

-- Safe parts stay as they are.
safe_parts_kept : (parts : List Text) → All IsSafe parts → safe_parts parts ≡ some parts
unfolding safe_parts
safe_parts_kept [] h = refl
safe_parts_kept (part ∷ parts) (s, h) =
    rw
      (
        IsSafe-full part s,
        s.no_dot,
        s.no_dot_dot,
        safe_file_name_kept part s,
        safe_parts_kept parts h,
      )
      refl

split-in_front :
    (p : ℕ → Bool)
    → ((c : ℕ) → Allowed c → p c ≡ false)
    → p 47 ≡ true
    → (part t : Text) → All Allowed part
    → split p (part ++ 47 ∷ t) ≡ part ∷ split p t
unfolding split
split-in_front p keeps slash [] t h = rw slash refl
split-in_front p keeps slash (c ∷ part) t h =
    rw (keeps c h.0, split-in_front p keeps slash part t h.1) refl

-- What is joined is split again.
split-join_parts :
    (p : ℕ → Bool)
    → ((c : ℕ) → Allowed c → p c ≡ false)
    → p 47 ≡ true
    → (part : Text) (parts : List Text) → All IsSafe (part ∷ parts)
    → split p (join_parts (part ∷ parts)) ≡ part ∷ parts
unfolding join_parts
split-join_parts p keeps slash part [] h = split-Allowed p keeps part h.0.allowed
split-join_parts p keeps slash part (next ∷ parts) h =
    split-in_front p keeps slash part (join_parts (next ∷ parts)) h.0.allowed
    ∙ ap (◌∷◌ part) (split-join_parts p keeps slash next parts h.1)

-- The parts that `safe_rel_path` joins.
joined_parts :
    (o : Option (List Text)) (rel : Text)
    → joined o ≡ some rel
    → (part : Text) × (parts : List Text) × (o ≡ some (part ∷ parts))
      × (rel ≡ join_parts (part ∷ parts))
unfolding joined
joined_parts none rel e = cc
joined_parts (some []) rel e = cc
joined_parts (some (part ∷ parts)) rel e = (part, parts, refl, cc)

-- The path that is taken from a name is taken from itself again: the names of an offer, which its
-- sender has made safe, stay as they are on the other side.
pub safe_rel_path_again :
    (name rel : Text) → safe_rel_path name ≡ some rel → safe_rel_path rel ≡ some rel
unfolding safe_rel_path joined
safe_rel_path_again name rel e =
    let (part, parts, found, made) = joined_parts _ rel e in
    let safe = safe_parts-IsSafe (split is_separator name) (part ∷ parts) found in
    let again = split-join_parts is_separator Allowed-no_separator refl part parts safe in
    rw (made, again, safe_parts_kept (part ∷ parts) safe) refl

full_≢ : (part : Text) (parts : List Text) → part ∷ parts ≢ []
full_≢ part parts e = cc

confined_rel :
    (base : List Text) (name : Text) (path : List Text)
    → confined base name ≡ some path
    → (rel : Text) × (safe_rel_path name ≡ some rel) × (path ≡ base ++ split is_slash rel)
unfolding confined
confined_rel base name path e = elim (Option-cases (safe_rel_path name)) [
  | inl nothing ↦ absurd (ground arith)
  | inr (rel, r) ↦ (rel, r, ground arith)
]

-- A path of the other side's stays below its directory, whatever the name is: it goes on from the
-- directory by components of which each is a name of allowed characters, not longer than 128, and
-- neither the directory itself nor its parent.
pub confined-IsSafe :
    (base : List Text) (name : Text) (path : List Text)
    → confined base name ≡ some path
    → (parts : List Text) × (path ≡ base ++ parts) × All IsSafe parts × (parts ≢ [])
unfolding safe_rel_path
confined-IsSafe base name path e =
    let (rel, r, built) = confined_rel base name path e in
    let (part, parts, found, made) = joined_parts _ rel r in
    let safe = safe_parts-IsSafe (split is_separator name) (part ∷ parts) found in
    let again = split-join_parts is_slash Allowed-no_slash refl part parts safe in
    (
      part ∷ parts,
      built ∙ ap (λ t. base ++ t) (ap (split is_slash) made ∙ again),
      safe,
      full_≢ part parts,
    )

-- An absolute path is not refused: its slash is passed over.
pub safe_rel_path_absolute : (name : Text) → safe_rel_path (47 ∷ name) ≡ safe_rel_path name
unfolding safe_rel_path split safe_parts
safe_rel_path_absolute name = refl

-- A name that is made longer than the limit, as the copy of a root with the same name is by a number
-- at its end, is cut back to the name that it had.
pub safe_rel_path_cut :
    (root suffix : Text)
    → IsSafe root
    → length root ≡ name_limit
    → All Allowed suffix
    → safe_rel_path (root ++ suffix) ≡ some root
unfolding safe_rel_path safe_parts joined join_parts
safe_rel_path_cut root suffix s long h =
    let all = All-append Allowed root suffix s.allowed h in
    let (e, f, g) = long_name (root ++ suffix) (omega (arith, length-append root suffix)) in
    let one = split-Allowed is_separator Allowed-no_separator (root ++ suffix) all in
    let cut =
      safe_file_name-Allowed (root ++ suffix) all e f g ∙ cleaned_name_cut root suffix s long h in
    rw (one, e, f, g, cut) refl
