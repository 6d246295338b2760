-- ===== src/Game/Frames.antt =====
-- The frames of SDLRe/lib/Game.cpp: in each the player's keys are handled, and Player::update puts the
-- rectangles that are drawn where the player is.
use my_learning.Base.{
  ℕ, suc, ◌≡◌, refl, sym, ap, subst, ◌∙◌, ◌*◌, ◌<◌, false, Option, some, List, [], ◌∷◌, All, length,
  Run, ok, ◌>>=◌, arith, inl, inr,
}
use mathlib.Core.Option.{some-injective}
use my_learning.Base.Int.{ℤ, pos, ◌*ℤ◌}
use my_learning.Game.{
  TileMap, MapManager, Direction, down, left, right, up, Player, Keys, Hitbox, hitbox_at,
  is_blocked, handle_event, tile_size,
}
use my_learning.Game.Moves.{IsPlaying, IsFree, Moved, handle_event_lem}

-- SDL_Rect
pub record Rect : Type 0 where
  pub x : ℤ
  pub y : ℤ
  pub w : ℤ
  pub h : ℤ

-- srcRect_ in the sheet of the player's pictures, and dstRect_ in the window
pub record Sprite : Type 0 where
  pub src_rect : Rect
  pub dst_rect : Rect

abbrev pub direction_index : Direction → ℕ
direction_index down = 0
direction_index left = 1
direction_index right = 2
direction_index up = 3

-- Size
abbrev pub size : ℕ
size = 32

unfoldable pub update : Player → Sprite → Sprite
update p s = record {
  src_rect = record s.src_rect {
    x = pos (p.frame * size);
    y = pos (direction_index p.direction * size);
  };
  dst_rect = record s.dst_rect { x = p.x; y = p.y };
}

-- what a frame draws of the player, and on which map
pub record Shown : Type 0 where
  pub sprite : Sprite
  pub map : TileMap

-- the frames of the main loop, by the keys that are down in each
unfoldable pub play : List Keys → Player → MapManager → Sprite → Run (List Shown)
unfolding update
play [] p m s = ok []
play (keys ∷ rest) p m s = do
  (p', m') ← handle_event keys p m
  let s' = update p' s
  shown ← play rest p' m' s'
  ok (record { sprite = s'; map = m'.current_map } ∷ shown)

abbrev pub Listed : (ℕ → Option TileMap) → TileMap → Type 0
Listed maps t = (name : ℕ) × (maps name ≡ some t)

-- Every map leads to one that is there, to a place that no wall blocks.
abbrev pub IsWorld : (ℕ → Option TileMap) → Type 0
IsWorld maps =
    (t : TileMap)
    → Listed maps t
    → (next : TileMap) × (maps t.tp_point.next_map ≡ some next)
      × (is_blocked next.forbidden
            (hitbox_at (t.tp_point.new_x *ℤ tile_size) (t.tp_point.new_y *ℤ tile_size))
          ≡ false)

-- the sizes that the constructor gives the rectangles
pub record IsSized (s : Sprite) : Type 0 where
  pub src_w : s.src_rect.w ≡ pos size
  pub src_h : s.src_rect.h ≡ pos size
  pub dst_w : s.dst_rect.w ≡ pos tile_size
  pub dst_h : s.dst_rect.h ≡ pos tile_size

abbrev pub box_of : Rect → Hitbox
box_of r = record { x = r.x; y = r.y; h = r.h; w = r.w }

-- One of the twelve pictures of the sheet is drawn on a map of the world, where no wall is.
pub record IsShown (maps : ℕ → Option TileMap) (v : Shown) : Type 0 where
  pub sized : IsSized v.sprite
  pub column : (i : ℕ) × (i < 3) × (v.sprite.src_rect.x ≡ pos (i * size))
  pub row : (j : ℕ) × (j < 4) × (v.sprite.src_rect.y ≡ pos (j * size))
  pub listed : Listed maps v.map
  pub outside : is_blocked v.map.forbidden (box_of v.sprite.dst_rect) ≡ false

direction_index-bound : (d : Direction) → direction_index d < 4
direction_index-bound down = omega arith
direction_index-bound left = omega arith
direction_index-bound right = omega arith
direction_index-bound up = omega arith

-- what holds between two frames
record IsReady (maps : ℕ → Option TileMap) (p : Player) (m : MapManager) : Type 0 where
  playing : IsPlaying p m
  free : IsFree p m
  same : m.maps ≡ maps
  listed : Listed maps m.current_map

update-IsShown :
    (maps : ℕ → Option TileMap) (p : Player) (m : MapManager) (s : Sprite)
    → IsReady maps p m
    → IsSized s
    → IsShown maps (record { sprite = update p s; map = m.current_map })
unfolding update
update-IsShown maps p m s r z = record {
  sized = record { src_w = z.src_w; src_h = z.src_h; dst_w = z.dst_w; dst_h = z.dst_h };
  column = (p.frame, r.playing.frames, refl);
  row = (direction_index p.direction, direction_index-bound p.direction, refl);
  listed = r.listed;
  outside =
      subst (λ b. is_blocked m.current_map.forbidden b ≡ false) (rw (z.dst_w, z.dst_h) refl) r.free;
}

there_once :
    (maps : ℕ → Option TileMap) (name : ℕ) (t u : TileMap)
    → maps name ≡ some t
    → maps name ≡ some u
    → t ≡ u
there_once maps name t u e f = some-injective t u (sym e ∙ f)

-- A move leaves the game ready for the next.
Moved-IsReady :
    (maps : ℕ → Option TileMap) (p p' : Player) (m m' : MapManager) (next : TileMap)
    → IsReady maps p m
    → maps m.current_map.tp_point.next_map ≡ some next
    → is_blocked next.forbidden (
        hitbox_at
          (m.current_map.tp_point.new_x *ℤ tile_size)
          (m.current_map.tp_point.new_y *ℤ tile_size))
      ≡ false
    → IsPlaying p' m'
    → Moved m p' m'
    → IsReady maps p' m'
Moved-IsReady maps p p' m m' next r there open_place playing (inl (e, free)) = record {
  playing = playing;
  free = free;
  same = ap (λ (x : MapManager). x.maps) e ∙ r.same;
  listed = subst (λ (x : MapManager). Listed maps x.current_map) (sym e) r.listed;
}
Moved-IsReady maps p p' m m' next r there open_place playing (inr (to, same, ex, ey)) = record {
  playing = playing;
  free =
      rw (ex, ey)
        (subst
          (λ (t : TileMap).
            is_blocked t.forbidden (
              hitbox_at (m.current_map.tp_point.new_x *ℤ tile_size)
                (m.current_map.tp_point.new_y *ℤ tile_size))
            ≡ false)
          (there_once maps (m.current_map.tp_point.next_map) next m'.current_map there
            (subst (λ f. f m.current_map.tp_point.next_map ≡ some m'.current_map) r.same to))
          open_place);
  same = same ∙ r.same;
  listed = (
    m.current_map.tp_point.next_map,
    subst (λ f. f m.current_map.tp_point.next_map ≡ some m'.current_map) r.same to,
  );
}

play-Ready :
    (maps : ℕ → Option TileMap)
    → IsWorld maps
    → (keys : List Keys) (p : Player) (m : MapManager) (s : Sprite) → IsReady maps p m
    → IsSized s
    → (shown : List Shown) × (play keys p m s ≡ ok shown)
      × (length shown ≡ length keys)
      × All (IsShown maps) shown
unfolding play
play-Ready maps world [] p m s r z = ([], refl, refl, tt)
play-Ready maps world (keys ∷ rest) p m s r z =
    let (next, there, open_place) = world m.current_map r.listed in
    let (p', m', ran, playing, moved) =
      handle_event_lem keys p m next r.playing r.free (rw (r.same) there) in
    let r' = Moved-IsReady maps p p' m m' next r there open_place playing moved in
    let v = update-IsShown maps p' m' s r' z in
    let (shown, ran', long, all) = play-Ready maps world rest p' m' (update p' s) r' v.sized in
    (_ ∷ shown, rw ran (rw ran' refl), ap (λ n. suc n) long, (v, all))

-- In a world where every map leads to one that is there, to a place that none of its walls blocks (the
-- files of the maps must see to that: a teleport does not look), the game goes on for any keys in any number of frames,
-- from a player who does not stand in a wall. In each frame one of the twelve pictures of the
-- player's sheet is drawn, in the size that the constructor sets, and where it is drawn there is no
-- wall of the map that is shown.
pub play_lem :
    (maps : ℕ → Option TileMap) (keys : List Keys) (p : Player) (m : MapManager) (s : Sprite)
    → IsWorld maps
    → IsPlaying p m
    → IsFree p m
    → m.maps ≡ maps
    → Listed maps m.current_map
    → IsSized s
    → (shown : List Shown) × (play keys p m s ≡ ok shown)
      × (length shown ≡ length keys)
      × All (IsShown maps) shown
play_lem maps keys p m s world playing free same listed sized =
    play-Ready maps world keys p m s
      (record { playing = playing; free = free; same = same; listed = listed }) sized
