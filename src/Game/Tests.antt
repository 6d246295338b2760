-- ===== src/Game/Tests.antt =====
-- A map of two rows with one wall, and a player beside it.
use my_learning.Base
use my_learning.Base.{
  All, ◌≤◌, ◌>>=◌, ℕ, length, subst, Option, ℕ_discrete, ◌≡◌, refl, true, false, none, some, List,
  [], ◌∷◌, ok, arith,
}
use my_learning.Base.Int.{pos, ◌+ℤ◌, ◌*ℤ◌}
use my_learning.Game.{
  TileMap, MapManager, Player, Keys, down, right, handle_event, hitbox_at, tile_box, is_blocked,
  walls_of, walls_of_row, trigger_of, Hitbox, pressed, move, animate, tile_size,
}
use my_learning.Game.Moves.{IsFree}
use my_learning.Game.Frames.{Sprite, Shown, Listed, IsWorld, IsShown, play, play_lem, update}
use my_learning.Game.Render.{
  Draw, render, render_tile, walls_drawn, portal_drawn, IsStill, render_lem,
}

abbrev rows : List (List ℕ)
rows = (0 ∷ 1 ∷ []) ∷ (0 ∷ 3 ∷ []) ∷ []

abbrev first_map : TileMap
first_map = record {
  forbidden = tile_box 1 0 ∷ [];
  tp_point = record { new_x = pos 4; new_y = pos 5; triger_zone = tile_box 1 1; next_map = 2 };
}

abbrev manager : MapManager
manager = record { maps = Base.update (λ name. none) 2 (some first_map); current_map = first_map }

abbrev player : Player
player = record {
  x = pos 0;
  y = pos 0;
  triger_zone = tile_box 1 1;
  frame = 0;
  frame_counter = 9;
  direction = down;
  speed = pos 4;
}

abbrev to_right : Keys
to_right = record {
  key_down = false;
  key_s = false;
  key_up = false;
  key_w = false;
  key_right = true;
  key_d = false;
  key_left = false;
  key_a = false;
}

walls : walls_of rows 0 ≡ first_map.forbidden
unfolding walls_of walls_of_row
walls = refl

-- The wall stops the player, whose picture moves on all the same.
stopped :
    handle_event to_right player manager
    ≡ ok (record player { frame = 1; frame_counter = 0; direction = right }, manager)
unfolding handle_event pressed move animate is_blocked ◌+ℤ◌
stopped = refl

player-IsFree : IsFree player manager
unfolding is_blocked ◌+ℤ◌
player-IsFree = refl

-- Its only map leads to itself.
abbrev world : ℕ → Option TileMap
world = manager.maps

only : (t : TileMap) → Listed world t → first_map ≡ t
only t (name, e) = elim (ℕ_discrete name 2) [
  | yes two ↦ ground arith
  | no other ↦ absurd (ground arith)
]

open_place :
    is_blocked first_map.forbidden (hitbox_at (pos 4 *ℤ tile_size) (pos 5 *ℤ tile_size)) ≡ false
unfolding is_blocked ◌+ℤ◌ ◌*ℤ◌
open_place = refl

world-IsWorld : IsWorld world
world-IsWorld t listed =
    subst
      (λ (t : TileMap).
        (next : TileMap) × (world t.tp_point.next_map ≡ some next)
        × (is_blocked next.forbidden
              (hitbox_at (t.tp_point.new_x *ℤ tile_size) (t.tp_point.new_y *ℤ tile_size))
            ≡ false))
      (only t listed) (first_map, refl, open_place)

abbrev sprite : Sprite
sprite = record {
  src_rect = record { x = pos 0; y = pos 0; w = pos 32; h = pos 32 };
  dst_rect = record { x = pos 0; y = pos 0; w = pos 64; h = pos 64 };
}

-- beside the wall, in two frames
abbrev beside : Shown
beside = record {
  sprite = record sprite { src_rect = record sprite.src_rect { x = pos 32; y = pos 64 } };
  map = first_map;
}

two_frames : play (to_right ∷ to_right ∷ []) player manager sprite ≡ ok (beside ∷ beside ∷ [])
unfolding play update handle_event pressed move animate is_blocked ◌+ℤ◌
two_frames = refl

play_lem_example :
    (shown : List Shown) × (play (to_right ∷ to_right ∷ []) player manager sprite ≡ ok shown)
    × (length shown ≡ 2)
    × All (IsShown world) shown
play_lem_example =
    play_lem world (to_right ∷ to_right ∷ []) player manager sprite world-IsWorld
      (record { zone = refl; frames = omega arith; counter = omega arith }) player-IsFree refl
      (2, refl) (record { src_w = refl; src_h = refl; dst_w = refl; dst_h = refl })

drawn : (render rows 0 >>= λ r. ok (walls_drawn r.0)) ≡ ok (tile_box 1 0 ∷ [])
unfolding render render_tile walls_drawn
drawn = refl

render_lem_example :
    (draws : List Draw) × (frame' : ℕ) × (render rows 7 ≡ ok (draws, frame'))
    × (walls_drawn draws ≡ walls_of rows 0)
    × ((zone : Hitbox) → portal_drawn draws zone ≡ trigger_of rows 0 zone)
    × (frame' ≤ 8)
    × All IsStill draws
render_lem_example = render_lem rows 7 (refl, (refl, tt)) (omega arith)
