-- ===== src/Game/Moves.antt =====
-- A move of the player.
use my_learning.Base.{
  ◌≡◌, ◌<◌, refl, ◌∙◌, Bool, true, false, ◌&&◌, some, ok, Run, arith, Option-cases, inl, inr, ◌⊎◌,
  if◌then◌else◌,
}
use my_learning.Base.Int.{◌*ℤ◌}
use my_learning.Game.{
  TileMap, MapManager, Direction, down, left, right, up, Player, Keys, is_blocked, hitbox_at,
  check_x, check_y, pressed, move, animate, teleport, tp, handle_event, tile_size,
}

-- The player does not stand in a wall.
abbrev pub IsFree : Player → MapManager → Type 0
IsFree p m = is_blocked m.current_map.forbidden (hitbox_at p.x p.y) ≡ false

-- what every move keeps
pub record IsPlaying (p : Player) (m : MapManager) : Type 0 where
  pub zone : p.triger_zone ≡ m.current_map.tp_point.triger_zone
  pub frames : p.frame < 3
  pub counter : p.frame_counter < 10

-- The player stays on the map and out of its walls, or is at the new place on the next map.
abbrev pub Moved : MapManager → Player → MapManager → Type 0
Moved m p' m' =
    ((m' ≡ m) × IsFree p' m')
    ⊎ ((m.maps m.current_map.tp_point.next_map ≡ some m'.current_map)
        × (m'.maps ≡ m.maps)
        × (p'.x ≡ m.current_map.tp_point.new_x *ℤ tile_size)
        × (p'.y ≡ m.current_map.tp_point.new_y *ℤ tile_size))

abbrev placed : Bool → Player → Player → Player
placed blocked p moved = if blocked then record moved { x = p.x; y = p.y } else moved

placed-IsFree :
    (blocked : Bool) (p moved : Player) (m : MapManager)
    → is_blocked m.current_map.forbidden (hitbox_at moved.x moved.y) ≡ blocked
    → IsFree p m
    → IsFree (placed blocked p moved) m
placed-IsFree true p moved m e f = f
placed-IsFree false p moved m e f = e

move_keeps :
    (d : Direction) (p : Player)
    → ((move d p).triger_zone ≡ p.triger_zone)
      × ((move d p).frame ≡ p.frame)
      × ((move d p).frame_counter ≡ p.frame_counter)
unfolding move
move_keeps down p = (refl, refl, refl)
move_keeps up p = (refl, refl, refl)
move_keeps left p = (refl, refl, refl)
move_keeps right p = (refl, refl, refl)

placed_keeps :
    (blocked : Bool) (p moved : Player)
    → ((placed blocked p moved).triger_zone ≡ moved.triger_zone)
      × ((placed blocked p moved).frame ≡ moved.frame)
      × ((placed blocked p moved).frame_counter ≡ moved.frame_counter)
placed_keeps true p moved = (refl, refl, refl)
placed_keeps false p moved = (refl, refl, refl)

animate-IsPlaying : (p : Player) (m : MapManager) → IsPlaying p m → IsPlaying (animate p) m
unfolding animate
animate-IsPlaying p m i = record {
  zone = i.zone;
  frames = ground (arith, i.frames);
  counter = ground (arith, i.counter);
}

abbrev Result : Run (Player × MapManager) → MapManager → Type 0
Result run m =
    (p' : Player) × (m' : MapManager) × (run ≡ ok (p', m')) × IsPlaying p' m' × Moved m p' m'

teleport-Result :
    (p : Player) (m : MapManager) (next : TileMap)
    → IsPlaying p m
    → m.maps m.current_map.tp_point.next_map ≡ some next
    → Result (teleport p m) m
unfolding teleport tp
teleport-Result p m next i there =
    let point = m.current_map.tp_point in
    let p' = record p {
      x = point.new_x *ℤ tile_size;
      y = point.new_y *ℤ tile_size;
      triger_zone = next.tp_point.triger_zone;
    } in
    let m' = record m { current_map = next } in
    (
      p',
      m',
      rw (teleport, tp, there) refl,
      record { zone = refl; frames = i.frames; counter = i.counter },
      inr (there, refl, refl, refl),
    )

if-Result :
    (test : Bool) (x y : Run (Player × MapManager)) (m : MapManager)
    → Result x m
    → Result y m
    → Result (if test then x else y) m
if-Result true x y m a b = a
if-Result false x y m a b = b

animate_place : (p : Player) (m : MapManager) → IsFree p m → IsFree (animate p) m
unfolding animate
animate_place p m f = f

-- Whatever keys are down, a player who does not stand in a wall either stays on the map and out of its
-- walls or is moved to the new place of its teleport point on the next map; the trigger is always that
-- of the present map, and the frame is one of three. It is assumed that the next map is there.
pub handle_event_lem :
    (keys : Keys) (p : Player) (m : MapManager) (next : TileMap)
    → IsPlaying p m
    → IsFree p m
    → m.maps m.current_map.tp_point.next_map ≡ some next
    → (p' : Player) × (m' : MapManager) × (handle_event keys p m ≡ ok (p', m'))
      × IsPlaying p' m'
      × Moved m p' m'
unfolding handle_event
handle_event_lem keys p m next i f there = elim (Option-cases (pressed keys)) [
  | inl e ↦ (
    record p { frame = 1 },
    m,
    rw (handle_event, e) refl,
    record { zone = i.zone; frames = omega arith; counter = i.counter },
    inl (refl, f),
  )
  | inr (d, e) ↦
      let moved = move d p in
      let box = hitbox_at moved.x moved.y in
      let q = placed (is_blocked m.current_map.forbidden box) p moved in
      let (zone, frame, counter) = move_keeps d p in
      let (zone', frame', counter') =
        placed_keeps (is_blocked m.current_map.forbidden box) p moved in
      let playing : IsPlaying q m = record {
        zone = zone' ∙ (zone ∙ i.zone);
        frames = omega (arith, frame, frame', i.frames);
        counter = omega (arith, counter, counter', i.counter);
      } in
      let free = placed-IsFree (is_blocked m.current_map.forbidden box) p moved m refl f in
      let animated = animate-IsPlaying q m playing in
      rw (handle_event, e)
        (if-Result (check_x box q.triger_zone && check_y box q.triger_zone) (teleport (animate q) m)
          (ok (animate q, m)) m (teleport-Result (animate q) m next animated there)
          (animate q, m, refl, animated, inl (refl, animate_place q m free)))
]
