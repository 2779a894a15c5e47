-- ===== src/NetworkMessage/Tests.antt =====
-- Runs of the message buffer, and the theorems at concrete inputs.
use otg_premium_version.Common.{ℕ, ◌≡◌, refl, true, false, List, [], ◌∷◌, arith}
use otg_premium_version.Position.{Position}
use otg_premium_version.Position.Laws.{IsPosition}
use otg_premium_version.NetworkMessage.{
  Message, get, get_chars, get_string, get_position, add, add_string, add_position,
  set_buffer_position, can_add,
}
use otg_premium_version.NetworkMessage.Bytes.{le_bytes, from_le, write_at, read_at}
use otg_premium_version.NetworkMessage.Written.{IsWriting, get-add, get_string-add_string}
use otg_premium_version.NetworkMessage.Positions.{get_position-add_position}
use otg_premium_version.NetworkMessage.Bounds.{
  Keeps, write, text, write-Keeps, write-IsWriting, get-overrun,
}

abbrev fresh : Message
fresh = record { length_of = 0; position = 8; overrun = false; buffer = λ i. 0 }

fresh-IsWriting : IsWriting fresh
fresh-IsWriting = record { counted = refl; inside = omega arith }

abbrev hello : List ℕ
hello = b'h' ∷ b'e' ∷ b'y' ∷ []

text_runs : (get_string 0 (set_buffer_position 8 (add_string hello fresh))).value ≡ hello
unfolding add_string get_string get get_chars set_buffer_position le_bytes from_le write_at read_at
text_runs = refl

get-add_example :
    get 4 (set_buffer_position 8 (add 4 70000 fresh))
    ≡ record { value = 70000; message = add 4 70000 fresh }
unfolding can_add
get-add_example = get-add 4 70000 fresh fresh-IsWriting (omega arith) refl

get_string-add_string_example :
    get_string 0 (set_buffer_position 8 (add_string hello fresh))
    ≡ record { value = hello; message = add_string hello fresh }
unfolding can_add
get_string-add_string_example = get_string-add_string hello fresh fresh-IsWriting refl (omega arith)

abbrev temple : Position
temple = record { x = 32369; y = 32241; z = 7 }

temple-IsPosition : IsPosition temple
temple-IsPosition = omega arith

get_position-add_position_example :
    get_position (set_buffer_position 8 (add_position temple fresh))
    ≡ record { value = temple; message = add_position temple fresh }
unfolding can_add
get_position-add_position_example =
    get_position-add_position temple fresh temple-IsPosition fresh-IsWriting refl

write-Keeps_example : Keeps fresh (write (text hello) fresh)
write-Keeps_example = write-Keeps (text hello) fresh (omega arith)

write-IsWriting_example : IsWriting (write (text hello) fresh)
write-IsWriting_example = write-IsWriting (text hello) fresh (λ n e. cc) fresh-IsWriting

get-overrun_example : get 4 fresh ≡ record { value = 0; message = record fresh { overrun = true } }
get-overrun_example = get-overrun 4 fresh refl
