-- ===== src/Game/Tiles.antt =====
-- The walls of a map are its tiles of kind 1.
use my_learning.Base.{
  ℕ, suc, ◌≡◌, refl, ap, ◌∙◌, Bool, true, false, ◌&&◌, ◌||◌, List, [], ◌∷◌, ◌++◌, ◌==◌,
  if◌then◌else◌,
}
use my_learning.Game.{Hitbox, is_blocked, walls_of_row, walls_of, tile_box, check_x, check_y}

-- the box overlaps a tile of kind 1 of the row, or of the rows
unfoldable pub hits_row : Hitbox → List ℕ → ℕ → ℕ → Bool
hits_row box [] h j = false
hits_row box (tile ∷ row) h j =
    ((tile == 1) && (check_x box (tile_box h j) && check_y box (tile_box h j)))
    || hits_row box row (suc h) j

unfoldable pub hits : Hitbox → List (List ℕ) → ℕ → Bool
hits box [] j = false
hits box (row ∷ rows) j = hits_row box row 0 j || hits box rows (suc j)

or_assoc : (a b c : Bool) → (a || (b || c)) ≡ ((a || b) || c)
or_assoc true b c = refl
or_assoc false b c = refl

if_wall :
    (wall : Bool) (box block : Hitbox) (rest : List Hitbox) (later : Bool)
    → is_blocked rest box ≡ later
    → is_blocked (if wall then block ∷ rest else rest) box
      ≡ ((wall && (check_x box block && check_y box block)) || later)
unfolding is_blocked
if_wall true box block rest later e = ap (λ b. (check_x box block && check_y box block) || b) e
if_wall false box block rest later e = e

no_wall : (box : Hitbox) → is_blocked [] box ≡ false
unfolding is_blocked
no_wall box = refl

is_blocked-append :
    (box : Hitbox) (xs ys : List Hitbox)
    → is_blocked (xs ++ ys) box ≡ (is_blocked xs box || is_blocked ys box)
unfolding is_blocked
is_blocked-append box [] ys = refl
is_blocked-append box (x ∷ xs) ys =
    rw (is_blocked-append box xs ys)
      (or_assoc (check_x box x && check_y box x) (is_blocked xs box) (is_blocked ys box))

is_blocked-walls_of_row :
    (box : Hitbox) (row : List ℕ) (h j : ℕ)
    → is_blocked (walls_of_row row h j) box ≡ hits_row box row h j
unfolding is_blocked walls_of_row hits_row
is_blocked-walls_of_row box [] h j = refl
is_blocked-walls_of_row box (tile ∷ row) h j =
    if_wall (tile == 1) box (tile_box h j) (walls_of_row row (suc h) j) (hits_row box row (suc h) j)
      (is_blocked-walls_of_row box row (suc h) j)

-- A player is blocked exactly where it overlaps a tile of kind 1 of the map.
pub is_blocked-walls_of :
    (box : Hitbox) (rows : List (List ℕ)) (j : ℕ)
    → is_blocked (walls_of rows j) box ≡ hits box rows j
unfolding walls_of hits
is_blocked-walls_of box [] j = no_wall box
is_blocked-walls_of box (row ∷ rows) j =
    is_blocked-append box (walls_of_row row 0 j) (walls_of rows (suc j))
    ∙ rw (is_blocked-walls_of_row box row 0 j) (rw (is_blocked-walls_of box rows (suc j)) refl)
