-- ===== src/Paths/FilePath.antt =====
-- `filepath.Clean` and `filepath.Join` on Unix, by the elements of a path.
use Prim.Native.Char.{code}
use gpbackman.Base.{
  String, ◌<>◌, Bool, true, false, ◌||◌, List, [], ◌∷◌, if◌then◌else◌, ◌==◌, nat_eq, join,
}
use mathlib.Core.List.{reverse}
use text.Mathlib.Text.{starts_with}

-- The text up to the first slash, and the texts between the slashes behind it.
split : String → String × List String
split String.[] = ("", [])
split (String.◌∷◌ c s) =
    let r = split s in if nat_eq (code c) b'/' then ("", r.0 ∷ r.1) else (String.◌∷◌ c r.0, r.1)

abbrev elements : String → List String
elements s = (split s).0 ∷ (split s).1

last_of : String → List String → String
last_of x [] = x
last_of x (y ∷ ys) = last_of y ys

-- The file that `path.Split` gives: what stands behind the last slash.
unfoldable pub last_element : String → String
unfolding split last_of
last_element s = last_of (split s).0 (split s).1

-- `..` takes the element before it away; at a root there is none, and a relative path keeps it.
pop : Bool → List String → List String
pop true [] = []
pop false [] = ".." ∷ []
pop rooted (x ∷ stack) = if x == ".." then ".." ∷ x ∷ stack else stack

-- The elements that `Clean` keeps, the last one first.
keep : Bool → List String → List String → List String
unfolding pop
keep rooted [] stack = stack
keep rooted (x ∷ xs) stack =
    keep rooted xs
      (if x == "" || x == "." then stack else if x == ".." then pop rooted stack else x ∷ stack)

unfoldable pub clean : String → String
unfolding split keep
clean path =
    let rooted = starts_with path "/" in
    let kept = join (reverse (keep rooted (elements path) [])) "/" in
    if rooted then "/" <> kept else if kept == "" then "." else kept

non_empty : List String → List String
non_empty [] = []
non_empty (x ∷ xs) = let rest = non_empty xs in if x == "" then rest else x ∷ rest

join_clean : List String → String
unfolding clean
join_clean [] = ""
join_clean (x ∷ xs) = clean (join (x ∷ xs) "/")

unfoldable pub path_join : List String → String
unfolding non_empty join_clean
path_join parts = join_clean (non_empty parts)

-- strings.TrimPrefix(s, "/")
unfoldable pub trim_prefix_slash : String → String
trim_prefix_slash String.[] = ""
trim_prefix_slash (String.◌∷◌ c s) = if nat_eq (code c) b'/' then s else String.◌∷◌ c s

-- strings.TrimSuffix(s, "/")
unfoldable pub trim_suffix_slash : String → String
trim_suffix_slash String.[] = ""
trim_suffix_slash (String.◌∷◌ c s) =
    let rest = trim_suffix_slash s in
    if s == "" then (if nat_eq (code c) b'/' then "" else String.◌∷◌ c "") else String.◌∷◌ c rest

-- The text up to the last slash, that slash included.
up_to_last : String → String
up_to_last String.[] = ""
up_to_last (String.◌∷◌ c s) =
    let later = up_to_last s in
    if later == ""
    then (if nat_eq (code c) b'/' then String.◌∷◌ c "" else "")
    else String.◌∷◌ c later

-- filepath.Dir
unfoldable pub dir_name : String → String
unfolding up_to_last clean
dir_name path = clean (up_to_last path)

-- All slashes at the end taken away.
without_slashes : String → String
without_slashes String.[] = ""
without_slashes (String.◌∷◌ c s) =
    let rest = without_slashes s in
    if rest == "" then (if nat_eq (code c) b'/' then "" else String.◌∷◌ c "") else String.◌∷◌ c rest

-- filepath.Base
unfoldable pub base_name : String → String
unfolding without_slashes last_element
base_name path =
    let trimmed = without_slashes path in
    if path == "" then "." else if trimmed == "" then "/" else last_element trimmed
