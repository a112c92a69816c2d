-- ===== src/Storage/Launch.antt =====
-- src/storage.c: the selected storage target, the directory of the launched program, and the paths beside it.
-- A path that is a null pointer is `none`.
pub mod Chars
pub mod Paths
use fhdb_bootstrap_manager.Common.{
  ℕ, suc, ◌+◌, Bool, true, false, ◌||◌, ◌&&◌, List, [], ◌∷◌, ◌++◌, Option, none, some, ltb, leb,
  ◌==◌, length, take, if◌then◌else◌,
}
use fhdb_bootstrap_manager.Common.Ints.{ℤ, pos, neg}
use fhdb_bootstrap_manager.Common.Bytes.{codes}
use fhdb_bootstrap_manager.Storage.{printed, target_prefix}

abbrev pub target_count : ℕ
target_count = 3

abbrev pub launch_path_size : ℕ
launch_path_size = 256

-- `selected_storage`, `launch_directory` and `launch_directory_valid`.
pub record Launch : Type 0 where
  pub selected : ℕ
  pub directory : List ℕ
  pub valid : Bool

abbrev pub initial_launch : Launch
initial_launch = record { selected = 0; directory = []; valid = false }

abbrev pub storage_set_selected : ℕ → Launch → ℤ × Launch
storage_set_selected storage launch =
    if leb target_count storage
    then (neg 1, launch)
    else (pos 0, record launch { selected = storage })

-- `strchr`
unfoldable pub find_char : ℕ → List ℕ → Option ℕ
find_char c [] = none
find_char c (x ∷ xs) =
    if x == c then some 0 else elim (find_char c xs) [ none ↦ none | some k ↦ some (suc k) ]

-- `strrchr`
unfoldable pub find_last_char : ℕ → List ℕ → Option ℕ
find_last_char c [] = none
find_last_char c (x ∷ xs) = elim (find_last_char c xs) [
  | none ↦ if x == c then some 0 else none
  | some k ↦ some (suc k)
]

-- The length of the directory of a path with its colon.
abbrev pub length_behind : ℕ → Option ℕ → ℕ
length_behind colon none = colon + 1
length_behind colon (some slash) = if ltb colon slash then slash else colon + 1

abbrev pub capture_length : List ℕ → ℕ → Launch → Launch
capture_length path n launch =
    if n == 0 || leb launch_path_size n
    then launch
    else record launch { directory = take n path; valid = true }

unfoldable pub capture_launch_directory : List ℕ → Launch → Launch
unfolding find_char find_last_char
capture_launch_directory path launch =
    let cleared = record launch { directory = []; valid = false } in
    elim (find_char b':' path) [
      | none ↦ cleared
      | some colon ↦ capture_length path (length_behind colon (find_last_char b'/' path)) cleared
    ]

-- `strncmp(text, prefix, strlen(prefix)) == 0`
unfoldable pub starts_with : List ℕ → List ℕ → Bool
starts_with [] text = true
starts_with (p ∷ prefix) [] = false
starts_with (p ∷ prefix) (c ∷ text) = p == c && starts_with prefix text

-- The loop over the targets.
unfoldable pub select_loop : List ℕ → List ℕ → Launch → Launch
unfolding starts_with
select_loop path [] launch = launch
select_loop path (i ∷ targets) launch =
    if starts_with (target_prefix i) path
    then (storage_set_selected i launch).1
    else select_loop path targets launch

-- Of `argv[0]`, where there is one.
unfoldable pub select_launch_storage : Option (List ℕ) → Launch → Launch
unfolding capture_launch_directory select_loop
select_launch_storage none launch = record launch { directory = []; valid = false }
select_launch_storage (some path) launch =
    let captured = capture_launch_directory path launch in
    if starts_with (codes "mass0:") path
    then (storage_set_selected 2 captured).1
    else select_loop path (0 ∷ 1 ∷ 2 ∷ []) captured

-- `launch_directory[length - 1u] == ':'`
unfoldable pub ends_in_colon : List ℕ → Bool
ends_in_colon [] = false
ends_in_colon (c ∷ []) = c == b':'
ends_in_colon (c ∷ d ∷ text) = ends_in_colon (d ∷ text)

-- The whole text of the path.
unfoldable pub launch_text : List ℕ → Launch → List ℕ
unfolding ends_in_colon
launch_text filename launch =
    if launch.valid
    then launch.directory ++ (if ends_in_colon launch.directory then [] else codes "/") ++ filename
    else target_prefix launch.selected ++ codes "/" ++ filename

abbrev pub is_empty : List ℕ → Bool
is_empty [] = true
is_empty (c ∷ text) = false

-- The code and what is left in the destination.
unfoldable pub storage_launch_file_path : List ℕ → ℕ → List ℕ → Launch → ℤ × List ℕ
unfolding launch_text printed
storage_launch_file_path destination capacity filename launch =
    let text = launch_text filename launch in
    if capacity == 0 || is_empty filename
    then (neg 1, destination)
    else if leb capacity (length text)
    then (neg 2, [])
    else (if launch.valid then pos 0 else pos 1, printed capacity text)

abbrev pub storage_launch_directory : Launch → Option (List ℕ)
storage_launch_directory launch = if launch.valid then some launch.directory else none
