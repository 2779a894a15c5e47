-- ===== src/NetworkMessage/Positions.antt =====
-- Places of the map in a message (`addPosition` and `getPosition` of source/src/networkmessage.cpp).
use otg_premium_version.Common.{
  ℕ, ◌+◌, ◌%◌, ◌≤◌, ◌<◌, ◌≡◌, refl, true, List, length, arith, ap, ◌∙◌,
}
use mathlib.Core.Path.{subst}
use otg_premium_version.Position.{Position}
use otg_premium_version.Position.Laws.{IsPosition}
use otg_premium_version.NetworkMessage.{
  Message, can_add, get, get_byte, get_position, add, add_byte, add_position, set_buffer_position,
  written, u16,
}
use otg_premium_version.NetworkMessage.Bytes.{
  le_bytes, from_le, write_at, read_at, length-le_bytes, read_at-write_at, read_at-before,
}
use otg_premium_version.NetworkMessage.Written.{IsWriting, can_add-lt, get-in_front, add-written}

-- `getByte` reads what `get<uint8_t>` reads.
get_byte-get : (m : Message) → get_byte m ≡ get 1 m
unfolding get_byte get from_le read_at
get_byte-get m = ground arith

add_byte-add : (v : ℕ) (m : Message) → v < 256 → add_byte v m ≡ add 1 v m
unfolding add_byte add le_bytes write_at
add_byte-add v m h = rw (small) refl
  where
    small : v % 256 ≡ v
    small = omega arith

-- What a message holds behind three numbers.
module _ (p : Position) (m : Message) (w : IsWriting m) (h : can_add 5 m ≡ true) where
  abbrev xs : List ℕ
  xs = le_bytes 2 p.x

  abbrev ys : List ℕ
  ys = le_bytes 2 p.y

  abbrev zs : List ℕ
  zs = le_bytes 1 p.z

  abbrev at_x : Message
  at_x = written xs m

  abbrev at_y : Message
  at_y = written ys at_x

  abbrev at_z : Message
  at_z = written zs at_y

  room : m.position + 5 < 65521
  room = omega (arith, can_add-lt 5 m h)

  all_written : add 1 p.z (add 2 p.y (add 2 p.x m)) ≡ at_z
  unfolding can_add
  all_written =
      ap (λ t. add 1 p.z (add 2 p.y t)) (add-written 2 p.x m (ground (arith, room)))
      ∙ ap (add 1 p.z) (add-written 2 p.y at_x (ground (arith, room, length-le_bytes 2 p.x)))
      ∙ add-written 1 p.z at_y (ground (arith, room, length-le_bytes 2 p.x, length-le_bytes 2 p.y))

  next_x : u16 (m.position + length xs) ≡ m.position + 2
  next_x = omega (arith, room, length-le_bytes 2 p.x)

  next_y : u16 (u16 (m.position + length xs) + length ys) ≡ m.position + 4
  next_y = omega (arith, room, length-le_bytes 2 p.x, length-le_bytes 2 p.y)

  next_z : u16 (u16 (u16 (m.position + length xs) + length ys) + length zs) ≡ m.position + 5
  next_z = omega (arith, room, length-le_bytes 2 p.x, length-le_bytes 2 p.y, length-le_bytes 1 p.z)

  counted : m.position + 5 ≤ at_z.length_of + 8
  counted =
      omega (
        arith,
        room,
        w.counted,
        length-le_bytes 2 p.x,
        length-le_bytes 2 p.y,
        length-le_bytes 1 p.z,
      )

  held_x : read_at 2 m.position at_z.buffer ≡ xs
  held_x =
      rw (next_y, next_x)
        (read_at-before 2 m.position (m.position + 4) zs
            (write_at (m.position + 2) ys (write_at m.position xs m.buffer)) (omega arith)
          ∙ read_at-before 2 m.position (m.position + 2) ys (write_at m.position xs m.buffer)
              (omega arith)
          ∙ subst (λ k. read_at k m.position (write_at m.position xs m.buffer) ≡ xs)
              (length-le_bytes 2 p.x) (read_at-write_at m.position xs m.buffer))

  held_y : read_at 2 (m.position + 2) at_z.buffer ≡ ys
  held_y =
      rw (next_y, next_x)
        (read_at-before 2 (m.position + 2) (m.position + 4) zs
            (write_at (m.position + 2) ys (write_at m.position xs m.buffer)) (omega arith)
          ∙ subst
              (λ k.
                read_at k (m.position + 2)
                  (write_at (m.position + 2) ys (write_at m.position xs m.buffer))
                ≡ ys)
              (length-le_bytes 2 p.y)
              (read_at-write_at (m.position + 2) ys (write_at m.position xs m.buffer)))

  held_z : read_at 1 (m.position + 4) at_z.buffer ≡ zs
  held_z =
      rw (next_y, next_x)
        (subst
          (λ k.
            read_at k (m.position + 4) (
              write_at (m.position + 4) zs
                (write_at (m.position + 2) ys (write_at m.position xs m.buffer)))
            ≡ zs)
          (length-le_bytes 1 p.z)
          (read_at-write_at (m.position + 4) zs
            (write_at (m.position + 2) ys (write_at m.position xs m.buffer))))

  at_end : set_buffer_position (m.position + 4 + 1) at_z ≡ at_z
  unfolding set_buffer_position
  at_end = ap (λ (k : ℕ). record at_z { position = k }) (omega (arith, next_z, room))

-- A place of the map that fits is read back from where it was written.
pub get_position-add_position :
    (p : Position) (m : Message)
    → IsPosition p
    → IsWriting m
    → can_add 5 m ≡ true
    → get_position (set_buffer_position m.position (add_position p m))
      ≡ record { value = p; message = add_position p m }
unfolding get_position add_position
get_position-add_position p m fits w h =
    let end = at_z p m w h in
    let space = room p m w h in
    let count = counted p m w h in
    let four : m.position + 2 + 2 ≡ m.position + 4 = omega arith in
    let last : get 1 (set_buffer_position (m.position + 2 + 2) end)
        ≡ record { value = p.z; message = end } =
      rw four (
        get-in_front 1 p.z (m.position + 4) end (omega (arith, fits.z_fits)) (held_z p m w h)
          (omega (arith, count)) (omega (arith, space))
        ∙ ap (λ (t : Message). record { value = p.z; message = t }) (at_end p m w h)) in
    rw
      (
        add_byte-add p.z (add 2 p.y (add 2 p.x m)) fits.z_fits,
        all_written p m w h,
        get-in_front 2 p.x m.position end (omega (arith, fits.x_fits)) (held_x p m w h)
            (omega (arith, count)) (omega (arith, space)),
        get-in_front 2 p.y (m.position + 2) end (omega (arith, fits.y_fits)) (held_y p m w h)
            (omega (arith, count)) (omega (arith, space)),
        get_byte-get,
        last,
      )
      refl
