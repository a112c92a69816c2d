-- ===== src/Storage/Launch/Paths.antt =====
-- A program finds its files beside itself.
use fhdb_bootstrap_manager.Common.{
  ℕ, ◌-◌, ◌≡◌, true, false, List, [], ◌∷◌, ◌++◌, none, some, ltb, leb, ◌==◌, length, get_or,
  if◌then◌else◌,
}
use fhdb_bootstrap_manager.Common.Ints.{ℤ, neg}
use fhdb_bootstrap_manager.Common.Bytes.{codes}
use fhdb_bootstrap_manager.Storage.Launch.{Launch, find_char, find_last_char}

-- A program in a directory that a slash ends, or right behind the colon of a device. The directory has a
-- colon, and the name of the program no slash.
pub data IsLaunchedFrom : List ℕ → List ℕ → Type 0 where
  in_directory :
      (directory name : List ℕ) (colon : ℕ)
      → find_char b':' directory ≡ some colon
      → find_last_char b'/' name ≡ none
      → IsLaunchedFrom (directory ++ (b'/' ∷ name)) directory
  on_device :
      (device name : List ℕ)
      → find_char b':' device ≡ none
      → find_last_char b'/' name ≡ none
      → IsLaunchedFrom (device ++ (b':' ∷ name)) (device ++ (b':' ∷ []))

-- What a capture leaves: the directory, unless the buffer of 256 bytes cannot hold it with its zero.
abbrev pub captured_in : List ℕ → Launch → Launch
captured_in directory launch =
    if ltb (length directory) 256
    then record launch { directory = directory; valid = true }
    else record launch { directory = []; valid = false }

-- A file in a directory: no slash follows the colon of a device.
abbrev pub joined : List ℕ → List ℕ → List ℕ
joined directory filename =
    directory
    ++ (if get_or directory (length directory - 1) 0 == b':' then [] else codes "/")
    ++ filename

-- What the caller gets of a text: the text with its code, or an error where the buffer cannot hold it.
abbrev pub delivered : ℕ → ℤ → List ℕ → ℤ × List ℕ
delivered capacity code text = if leb capacity (length text) then (neg 2, []) else (code, text)
