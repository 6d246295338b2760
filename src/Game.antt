-- ===== src/Game.antt =====
-- SDLRe/lib/Player.cpp, MapManager.cpp and the constructor of TileMap.cpp, with their headers.
-- Coordinates are integers that do not overflow an int. A map's name is a number and `maps` the table
-- of maps; a teleport to a name that is not there is `abort`, as `currentMap_` is then null.
pub mod Moves
pub mod Frames
pub mod Tiles
pub mod Render
mod Tests
use my_learning.Base.{
  ℕ, zero, suc, ◌+◌, ◌*◌, ◌%◌, Bool, true, false, ◌&&◌, ◌||◌, Option, none, some, List, [], ◌∷◌,
  ◌++◌, leb, ◌==◌, if◌then◌else◌, Run, ok, abort, ◌>>=◌,
}
use my_learning.Base.Int.{ℤ, pos, negsuc, ◌+ℤ◌, ◌-ℤ◌, ◌*ℤ◌, ltb_ℤ}

-- Scale * Size
abbrev pub tile_size : ℕ
tile_size = 2 * 32

pub record Hitbox : Type 0 where
  pub x : ℤ
  pub y : ℤ
  pub h : ℤ
  pub w : ℤ

pub record TeleportPoint : Type 0 where
  pub new_x : ℤ
  pub new_y : ℤ
  pub triger_zone : Hitbox
  pub next_map : ℕ

pub record TileMap : Type 0 where
  pub forbidden : List Hitbox
  pub tp_point : TeleportPoint

pub record MapManager : Type 0 where
  pub maps : ℕ → Option TileMap
  pub current_map : TileMap

pub data Direction : Type 0 where
  down left right up : Direction

pub record Player : Type 0 where
  pub x : ℤ
  pub y : ℤ
  pub triger_zone : Hitbox
  pub frame : ℕ
  pub frame_counter : ℕ
  pub direction : Direction
  pub speed : ℤ

-- the keys that are down: the arrows, and the letters
pub record Keys : Type 0 where
  pub key_down : Bool
  pub key_s : Bool
  pub key_up : Bool
  pub key_w : Bool
  pub key_right : Bool
  pub key_d : Bool
  pub key_left : Bool
  pub key_a : Bool

abbrev pub check_x : Hitbox → Hitbox → Bool
check_x a b = ltb_ℤ a.x (b.x +ℤ b.w) && ltb_ℤ b.x (a.x +ℤ a.w)

abbrev pub check_y : Hitbox → Hitbox → Bool
check_y a b = ltb_ℤ a.y (b.y +ℤ b.h) && ltb_ℤ b.y (a.y +ℤ a.h)

unfoldable pub is_blocked : List Hitbox → Hitbox → Bool
is_blocked [] player = false
is_blocked (block ∷ blocks) player =
    check_x player block && check_y player block || is_blocked blocks player

abbrev pub hitbox_at : ℤ → ℤ → Hitbox
hitbox_at x y = record { x = x; y = y; h = pos tile_size; w = pos tile_size }

unfoldable pub pressed : Keys → Option Direction
pressed k =
    if k.key_down || k.key_s
    then some down
    else if k.key_up || k.key_w
    then some up
    else if k.key_right || k.key_d
    then some right
    else if k.key_left || k.key_a
    then some left
    else none

unfoldable pub move : Direction → Player → Player
move down p = record p { y = p.y +ℤ p.speed; direction = down }
move up p = record p { y = p.y -ℤ p.speed; direction = up }
move right p = record p { x = p.x +ℤ p.speed; direction = right }
move left p = record p { x = p.x -ℤ p.speed; direction = left }

unfoldable pub animate : Player → Player
animate p =
    let counter = suc p.frame_counter in
    record p {
      frame = if leb 10 counter then (p.frame + 1) % 3 else p.frame;
      frame_counter = if leb 10 counter then 0 else counter;
    }

-- MapManager::Tp
unfoldable pub tp : MapManager → Run MapManager
tp m = elim (m.maps m.current_map.tp_point.next_map) [
  | none ↦ abort
  | some map ↦ ok (record m { current_map = map })
]

unfoldable pub teleport : Player → MapManager → Run (Player × MapManager)
teleport p m = do
  let point = m.current_map.tp_point
  m' ← tp m
  let p' = record p {
    x = point.new_x *ℤ tile_size;
    y = point.new_y *ℤ tile_size;
    triger_zone = m'.current_map.tp_point.triger_zone;
  }
  let result : Player × MapManager = (p', m')
  ok result

-- the test of the trigger is on the position that the player tried to reach
unfoldable pub handle_event : Keys → Player → MapManager → Run (Player × MapManager)
handle_event keys p m = elim (pressed keys) [
  | none ↦ let result : Player × MapManager = (record p { frame = 1 }, m) in ok result
  | some d ↦
      let moved = move d p in
      let box = hitbox_at moved.x moved.y in
      let placed =
        if is_blocked m.current_map.forbidden box
        then record moved { x = p.x; y = p.y }
        else moved in
      let result : Player × MapManager = (animate placed, m) in
      if check_x box placed.triger_zone && check_y box placed.triger_zone
      then teleport (animate placed) m
      else ok result
]

-- The walls and the trigger of a map: row by row, tile by tile, as TileMap reads them.
abbrev pub tile_box : ℕ → ℕ → Hitbox
tile_box h j = hitbox_at (pos (h * tile_size)) (pos (j * tile_size))

unfoldable pub walls_of_row : List ℕ → ℕ → ℕ → List Hitbox
walls_of_row [] h j = []
walls_of_row (tile ∷ row) h j =
    let rest = walls_of_row row (suc h) j in if tile == 1 then tile_box h j ∷ rest else rest

unfoldable pub walls_of : List (List ℕ) → ℕ → List Hitbox
walls_of [] j = []
walls_of (row ∷ rows) j = walls_of_row row 0 j ++ walls_of rows (suc j)

-- the trigger is at the last tile of kind 3; without one it stays what it was
unfoldable pub trigger_of_row : List ℕ → ℕ → ℕ → Hitbox → Hitbox
trigger_of_row [] h j zone = zone
trigger_of_row (tile ∷ row) h j zone =
    trigger_of_row row (suc h) j (if tile == 3 then tile_box h j else zone)

unfoldable pub trigger_of : List (List ℕ) → ℕ → Hitbox → Hitbox
trigger_of [] j zone = zone
trigger_of (row ∷ rows) j zone = trigger_of rows (suc j) (trigger_of_row row 0 j zone)
