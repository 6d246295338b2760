-- ===== src/DiskUsage/Tests.antt =====
-- A directory "d" with a hidden file and a directory that holds a file.
use my_learning.Base.{true, false, none, some, [], ◌∷◌, length, ◌==◌, if◌then◌else◌}
use my_learning.DiskUsage.{Files}
use my_learning.DiskUsage.Listing.{Listing, done, dot, dot_dot, file, folder, paths}

-- "h" is hidden behind a dot; "e" holds "f"
abbrev below : Listing
below =
    folder (101 ∷ []) 4 (file (102 ∷ []) 8 (dot (dot_dot done)))
      (dot (dot_dot (file (46 ∷ 104 ∷ []) 2 done)))

-- by the length of the paths: "d" 1, "d/e" 3, "d/.h" 4, "d/e/f" 5
abbrev disk : Files
disk = record {
  lstat = λ path.
      if length path == 1
      then some (true, 1)
      else if length path == 3
      then some (true, 4)
      else if length path == 4
      then some (false, 2)
      else if length path == 5
      then some (false, 8)
      else none;
  glob = λ path.
      if length path == 1
      then paths path below
      else paths path (file (102 ∷ []) 8 (dot (dot_dot done)));
}
