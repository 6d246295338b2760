-- ===== src/DiskUsage.antt =====
-- LinuxSystemProgram/include/mydu.cpp: the blocks that a file or a directory takes up. lstat(2) and
-- glob(3) are arguments. exit, a write behind the path buffer and an overflow of the sum abort. The
-- recursion is on fuel, two more than the number of the files and directories below. A path is the list
-- of its characters, of which '/' is 47 and '.' is 46.
pub mod Listing
mod Tests
use my_learning.Base.{
  ℕ, zero, suc, ◌+◌, Bool, true, false, Option, none, some, List, [], ◌∷◌, ◌++◌, length, ltb, leb,
  ◌==◌, if◌then◌else◌, Run, ok, abort, ◌>>=◌, ◌>>◌, assert,
}

-- what mydu asks of the system
pub record Files : Type 0 where
  -- whether the path is a directory, and its blocks
  pub lstat : List ℕ → Option (Bool × ℕ)
  -- what the patterns "path/*" and "path/.*" match
  pub glob : List ℕ → List (List ℕ)

abbrev pub pathsize : ℕ
pathsize = 1024

-- strrchr(path, '/') + 1
abbrev pub last_name : List ℕ → Option (List ℕ)
last_name [] = none
last_name (c ∷ cs) = elim (last_name cs) [
  | some name ↦ some name
  | none ↦ if c == 47 then some cs else none
]

-- strcmp with "." and ".."
abbrev pub is_dots : List ℕ → Bool
is_dots [] = false
is_dots (c ∷ []) = c == 46
is_dots (c ∷ d ∷ []) = if c == 46 then d == 46 else false
is_dots (c ∷ d ∷ e ∷ cs) = false

unfoldable pub path_skip : List ℕ → Run Bool
path_skip path = elim (last_name path) [ none ↦ abort | some name ↦ ok (is_dots name) ]

-- `res += blocks` of an int64_t
unfoldable pub add_blocks : ℕ → ℕ → Run ℕ
add_blocks res blocks = assert (ltb (res + blocks) 0x8000000000000000) >> ok (res + blocks)

-- strncpy and strcat of the longer pattern, "/.*", with its '\0'
unfoldable pub next_path : List ℕ → Run (Unit {0})
next_path path = assert (leb (length path + 4) pathsize)

-- the loop over what glob matched, with the call for each path
unfoldable pub each : (List ℕ → ℕ → Run ℕ) → List (List ℕ) → ℕ → Run ℕ
each visit [] res = ok res
each visit (path ∷ rest) res = do
  skipped ← path_skip path
  res' ← if skipped then ok res else visit path res
  each visit rest res'

unfoldable pub mydu : Files → ℕ → List ℕ → ℕ → Run ℕ
mydu files zero path res = abort
mydu files (suc fuel) path res = elim (files.lstat path) [
  | none ↦ abort
  | some (is_dir, blocks) ↦
      if is_dir
      then next_path path >> (add_blocks res blocks >>= each (mydu files fuel) (files.glob path))
      else add_blocks res blocks
]
