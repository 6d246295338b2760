-- ===== src/DiskUsage/Listing.antt =====
-- The tree of files below a directory, and the blocks of all of them.
use my_learning.Base.{ℕ, ◌+◌, ◌≡◌, ◌≤◌, true, false, none, some, List, [], ◌∷◌, ◌++◌, length}
use my_learning.DiskUsage.{Files, last_name, is_dots}

-- what a directory lists, in any order: itself, its parent, files and directories with their names,
-- blocks and what is below them
pub data Listing : Type 0 where
  done : Listing
  dot : Listing → Listing
  dot_dot : Listing → Listing
  file : List ℕ → ℕ → Listing → Listing
  folder : List ℕ → ℕ → Listing → Listing → Listing

-- the blocks of all of it, each once
abbrev pub total : Listing → ℕ
total done = 0
total (dot r) = total r
total (dot_dot r) = total r
total (file name blocks r) = blocks + total r
total (folder name blocks below r) = blocks + total below + total r

abbrev pub size : Listing → ℕ
size done = 0
size (dot r) = size r
size (dot_dot r) = size r
size (file name blocks r) = 1 + size r
size (folder name blocks below r) = 1 + size below + size r

-- the paths of a listing
abbrev pub paths : List ℕ → Listing → List (List ℕ)
paths path done = []
paths path (dot r) = (path ++ 47 ∷ 46 ∷ []) ∷ paths path r
paths path (dot_dot r) = (path ++ 47 ∷ 46 ∷ 46 ∷ []) ∷ paths path r
paths path (file name blocks r) = (path ++ 47 ∷ name) ∷ paths path r
paths path (folder name blocks below r) = (path ++ 47 ∷ name) ∷ paths path r

-- a name has no '/' and is neither "." nor ".."
abbrev pub IsName : List ℕ → Type 0
IsName name = (last_name name ≡ none) × (is_dots name ≡ false)

module _ (files : Files) where
  -- a directory with the listing, whose path fits into the buffer
  pub record IsFolder (path : List ℕ) (blocks : ℕ) (ls : Listing) : Type 0 where
    pub stat : files.lstat path ≡ some (true, blocks)
    pub lists : files.glob path ≡ paths path ls
    pub fits : length path + 4 ≤ 1024

  -- the files below a directory
  abbrev pub Shows : List ℕ → Listing → Type 0
  Shows path done = Unit
  Shows path (dot r) = Shows path r
  Shows path (dot_dot r) = Shows path r
  Shows path (file name blocks r) =
      IsName name × (files.lstat (path ++ 47 ∷ name) ≡ some (false, blocks)) × Shows path r
  Shows path (folder name blocks below r) =
      IsName name
      × IsFolder (path ++ 47 ∷ name) blocks below
      × Shows (path ++ 47 ∷ name) below
      × Shows path r
