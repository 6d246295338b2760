-- ===== src/Game/Render.antt =====
-- TileMap::render and renderPortal of SDLRe/lib/TileMap.cpp: the pictures that are copied to the
-- screen, in their order, with the left edge of the part that is copied and the place on the screen.
use my_learning.Base.{
  ℕ, zero, suc, ◌+◌, ◌*◌, ◌/◌, ◌%◌, ◌≡◌, ◌≤◌, refl, ◌∙◌, Bool, true, false, List, [], ◌∷◌, ◌++◌,
  All, length, ltb, ◌==◌, if◌then◌else◌, Run, ok, abort, ◌>>=◌, arith, Bool-cases, inl, inr,
}
use my_learning.Game.{
  Hitbox, tile_size, tile_box, walls_of, walls_of_row, trigger_of, trigger_of_row,
}

pub data Picture : Type 0 where
  grass wall portal : Picture

pub record Draw : Type 0 where
  pub picture : Picture
  pub source_x : ℕ
  pub box : Hitbox

-- the picture, and the frame that follows
unfoldable pub render_portal : ℕ → Hitbox → Draw × ℕ
render_portal frame box =
    let next = suc frame in
    (
      record { picture = portal; source_x = (frame / 100 + 1) * tile_size; box = box },
      if ltb 8 next then next % 8 else next,
    )

-- the switch over a tile
unfoldable pub render_tile : ℕ → Hitbox → ℕ → List Draw × ℕ
unfolding render_portal
render_tile tile box frame =
    let ground : Draw = record { picture = grass; source_x = 0; box = box } in
    let block : Draw = record { picture = wall; source_x = 0; box = box } in
    let still : List Draw × ℕ = ([], frame) in
    if tile == 0
    then (ground ∷ [], frame)
    else if tile == 1
    then (block ∷ [], frame)
    else if tile == 3
    then (ground ∷ (render_portal frame box).0 ∷ [], (render_portal frame box).1)
    else still

-- the inner loop over `n` columns; a column that the row does not have is `abort`
unfoldable pub render_row : ℕ → List ℕ → ℕ → ℕ → ℕ → Run (List Draw × ℕ)
render_row zero row h j frame = ok ([], frame)
render_row (suc n) [] h j frame = abort
render_row (suc n) (tile ∷ row) h j frame = do
  let here = render_tile tile (tile_box h j) frame
  (rest, last) ← render_row n row (suc h) j here.1
  let result : List Draw × ℕ = (here.0 ++ rest, last)
  ok result

-- the outer loop
unfoldable pub render_rows : ℕ → List (List ℕ) → ℕ → ℕ → Run (List Draw × ℕ)
render_rows width [] j frame = ok ([], frame)
render_rows width (row ∷ rows) j frame = do
  (here, next) ← render_row width row 0 j frame
  (rest, last) ← render_rows width rows (suc j) next
  let result : List Draw × ℕ = (here ++ rest, last)
  ok result

-- every row has as many columns as the first
abbrev pub width : List (List ℕ) → ℕ
width [] = 0
width (row ∷ rows) = length row

unfoldable pub render : List (List ℕ) → ℕ → Run (List Draw × ℕ)
unfolding render_rows render_row
render rows frame = render_rows (width rows) rows 0 frame

abbrev is_wall : Picture → Bool
is_wall grass = false
is_wall wall = true
is_wall portal = false

-- where walls are drawn
unfoldable pub walls_drawn : List Draw → List Hitbox
walls_drawn [] = []
walls_drawn (d ∷ draws) =
    let rest = walls_drawn draws in if is_wall d.picture then d.box ∷ rest else rest

abbrev is_portal : Picture → Bool
is_portal grass = false
is_portal wall = false
is_portal portal = true

-- where the last portal is drawn, or `zone` without one
unfoldable pub portal_drawn : List Draw → Hitbox → Hitbox
portal_drawn [] zone = zone
portal_drawn (d ∷ draws) zone = portal_drawn draws (if is_portal d.picture then d.box else zone)

portal_drawn-append :
    (xs ys : List Draw) (zone : Hitbox)
    → portal_drawn (xs ++ ys) zone ≡ portal_drawn ys (portal_drawn xs zone)
unfolding portal_drawn
portal_drawn-append [] ys zone = refl
portal_drawn-append (x ∷ xs) ys zone =
    portal_drawn-append xs ys (if is_portal x.picture then x.box else zone)

walls_drawn-append : (xs ys : List Draw) → walls_drawn (xs ++ ys) ≡ walls_drawn xs ++ walls_drawn ys
unfolding walls_drawn
walls_drawn-append [] ys = refl
walls_drawn-append (x ∷ xs) ys = ground (arith, walls_drawn-append xs ys)

-- A portal always shows the same part of its picture.
abbrev pub IsStill : Draw → Type 0
IsStill d = d.picture ≡ portal → d.source_x ≡ tile_size

All-append : (xs ys : List Draw) → All IsStill xs → All IsStill ys → All IsStill (xs ++ ys)
All-append [] ys a b = b
All-append (x ∷ xs) ys (h, a) b = (h, All-append xs ys a b)

render_tile_lem :
    (tile frame : ℕ) (box : Hitbox)
    → frame ≤ 8
    → (walls_drawn (render_tile tile box frame).0 ≡ (if tile == 1 then box ∷ [] else []))
      × ((zone : Hitbox)
          → portal_drawn (render_tile tile box frame).0 zone ≡ (if tile == 3 then box else zone))
      × ((render_tile tile box frame).1 ≤ 8)
      × All IsStill (render_tile tile box frame).0
unfolding render_tile walls_drawn portal_drawn
render_tile_lem tile frame box h = (ground arith, λ zone. ground arith, ground arith, all_still)
  where
    all_still : All IsStill (render_tile tile box frame).0
    all_still = elim (Bool-cases (tile == 0)) [
      | inl a ↦ rw a (λ e. cc, tt)
      | inr a ↦ elim (Bool-cases (tile == 1)) [
        | inl b ↦ rw (a, b) (λ e. cc, tt)
        | inr b ↦ elim (Bool-cases (tile == 3)) [
          | inl c ↦ rw (a, b, c) (λ e. cc, (λ e. ground arith, tt))
          | inr c ↦ rw (a, b, c) tt
        ]
      ]
    ]

-- What a part of the map draws: walls where `blocks` stand, and a portal where the trigger is.
record Rendered (blocks : List Hitbox) (trigger : Hitbox → Hitbox) (r : List Draw × ℕ)
    : Type 0 where
  walls : walls_drawn r.0 ≡ blocks
  portal_at : (zone : Hitbox) → portal_drawn r.0 zone ≡ trigger zone
  frame : r.1 ≤ 8
  still : All IsStill r.0

Rendered-append :
    (xs ys : List Hitbox) (f g : Hitbox → Hitbox) (draws : List Draw) (r : List Draw × ℕ)
    → walls_drawn draws ≡ xs
    → ((zone : Hitbox) → portal_drawn draws zone ≡ f zone)
    → All IsStill draws
    → Rendered ys g r
    → Rendered (xs ++ ys) (λ zone. g (f zone)) (draws ++ r.0, r.1)
Rendered-append xs ys f g draws r w p a d = record {
  portal_at = λ zone. portal_drawn-append draws r.0 zone ∙ (rw (p zone) (d.portal_at (f zone)));
  walls = walls_drawn-append draws r.0 ∙ rw (w, d.walls) refl;
  frame = d.frame;
  still = All-append draws r.0 a d.still;
}

render_row_lem :
    (row : List ℕ) (h j frame : ℕ)
    → frame ≤ 8
    → (r : List Draw × ℕ) × (render_row (length row) row h j frame ≡ ok r)
      × Rendered (walls_of_row row h j) (trigger_of_row row h j) r
unfolding render_row walls_of_row walls_drawn trigger_of_row portal_drawn
render_row_lem [] h j frame f =
    (([], frame), refl, record { walls = refl; portal_at = λ zone. refl; frame = f; still = tt })
render_row_lem (tile ∷ row) h j frame f =
    let (drawn, portals, next, still) = render_tile_lem tile frame (tile_box h j) f in
    let here = render_tile tile (tile_box h j) frame in
    let (r, ran, d) = render_row_lem row (suc h) j here.1 next in
    let all =
      Rendered-append (if tile == 1 then tile_box h j ∷ [] else []) (walls_of_row row (suc h) j)
        (λ zone. if tile == 3 then tile_box h j else zone) (trigger_of_row row (suc h) j) here.0 r
        drawn portals still d in
    (
      (here.0 ++ r.0, r.1),
      rw ran refl,
      record {
        walls = all.walls ∙ ground arith;
        portal_at = all.portal_at;
        frame = all.frame;
        still = all.still;
      },
    )

-- every row is as wide as `n`
abbrev pub AreWide : ℕ → List (List ℕ) → Type 0
AreWide n rows = All (λ row. length row ≡ n) rows

render_rows_lem :
    (n : ℕ) (rows : List (List ℕ)) (j frame : ℕ)
    → AreWide n rows
    → frame ≤ 8
    → (r : List Draw × ℕ) × (render_rows n rows j frame ≡ ok r)
      × Rendered (walls_of rows j) (trigger_of rows j) r
unfolding render_rows walls_of walls_drawn trigger_of portal_drawn
render_rows_lem n [] j frame a f =
    (([], frame), refl, record { walls = refl; portal_at = λ zone. refl; frame = f; still = tt })
render_rows_lem n (row ∷ rows) j frame (w, a) f =
    let (r, ran, d) = render_row_lem row 0 j frame f in
    let (s, rest, e) = render_rows_lem n rows (suc j) r.1 a d.frame in
    (
      (r.0 ++ s.0, s.1),
      rw (← w) (rw ran (rw rest refl)),
      Rendered-append (walls_of_row row 0 j) (walls_of rows (suc j)) (trigger_of_row row 0 j)
          (trigger_of rows (suc j)) r.0 s d.walls d.portal_at d.still e,
    )

-- A map whose rows are as wide as its first is drawn without a read out of range: walls are drawn
-- exactly at the places that block the player, in their order, and the last portal where the trigger
-- of the teleport is, if there is one. The frame of the portal stays within
-- eight, and a portal always shows the same part of its picture, so that it does not move.
pub render_lem :
    (rows : List (List ℕ)) (frame : ℕ)
    → AreWide (width rows) rows
    → frame ≤ 8
    → (draws : List Draw) × (frame' : ℕ) × (render rows frame ≡ ok (draws, frame'))
      × (walls_drawn draws ≡ walls_of rows 0)
      × ((zone : Hitbox) → portal_drawn draws zone ≡ trigger_of rows 0 zone)
      × (frame' ≤ 8)
      × All IsStill draws
unfolding render
render_lem rows frame a f =
    let (r, ran, d) = render_rows_lem (width rows) rows 0 frame a f in
    (r.0, r.1, ran, d.walls, d.portal_at, d.frame, d.still)
