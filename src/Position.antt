-- ===== src/Position.antt =====
-- source/src/position.h: places on the map, distances, and the order of places.
-- `x` and `y` are below 2 ^ 16, `z` is below 2 ^ 8; offsets are differences of two such numbers,
-- of which the code only uses the absolute values here.
pub mod Laws
mod Tests
use otg_premium_version.Common.{
  ℕ, ◌+◌, ◌-◌, ◌%◌, ◌^◌, Bool, true, false, ◌&&◌, ◌||◌, not, ltb, leb, ◌==◌, if◌then◌else◌,
}

pub record Position : Type 0 where
  pub x : ℕ
  pub y : ℕ
  pub z : ℕ

-- `std::abs(p1 - p2)`, for each coordinate.
abbrev pub abs_diff : ℕ → ℕ → ℕ
abs_diff a b = if ltb a b then b - a else a - b

pub get_distance_x : Position → Position → ℕ
get_distance_x p1 p2 = abs_diff p1.x p2.x

pub get_distance_y : Position → Position → ℕ
get_distance_y p1 p2 = abs_diff p1.y p2.y

pub get_distance_z : Position → Position → ℕ
get_distance_z p1 p2 = abs_diff p1.z p2.z

-- `areInRange<deltax, deltay, deltaz>`
unfoldable pub are_in_range : ℕ → ℕ → ℕ → Position → Position → Bool
unfolding get_distance_x get_distance_y get_distance_z
are_in_range deltax deltay deltaz p1 p2 =
    leb (get_distance_x p1 p2) deltax
    && leb (get_distance_y p1 p2) deltay
    && leb (get_distance_z p1 p2) deltaz

-- `operator<`
pub lt : Position → Position → Bool
lt p q =
    if ltb p.z q.z
    then true
    else if ltb q.z p.z
    then false
    else if ltb p.y q.y
    then true
    else if ltb q.y p.y
    then false
    else if ltb p.x q.x
    then true
    else if ltb q.x p.x
    then false
    else false

-- `operator>`
pub gt : Position → Position → Bool
unfolding lt
gt p q = not (lt p q)

-- `operator==` and `operator!=`
pub eq : Position → Position → Bool
eq p q = q.x == p.x && q.y == p.y && q.z == p.z

pub ne : Position → Position → Bool
ne p q = not (q.x == p.x) || not (q.y == p.y) || not (q.z == p.z)

-- `operator+` and `operator-`: the constructor cuts the sums to the coordinates' widths.
pub add : Position → Position → Position
add p q = record { x = (p.x + q.x) % 2 ^ 16; y = (p.y + q.y) % 2 ^ 16; z = (p.z + q.z) % 2 ^ 8 }

pub sub : Position → Position → Position
sub p q = record {
  x = (p.x + 2 ^ 16 - q.x) % 2 ^ 16;
  y = (p.y + 2 ^ 16 - q.y) % 2 ^ 16;
  z = (p.z + 2 ^ 8 - q.z) % 2 ^ 8;
}
