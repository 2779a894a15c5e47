-- ===== src/Party/Counting.antt =====
-- How often a player stands in the lists of a party, and what the writes of source/src/party.cpp do
-- to these numbers.
pub use otg_premium_version.Common.{count, count-append}
use otg_premium_version.Common.{
  ℕ, ◌+◌, ◌-◌, ◌≡◌, refl, true, not, ◌&&◌, Option, none, some, List, [], ◌∷◌, ◌==◌, if◌then◌else◌,
  arith,
}
use otg_premium_version.Party.Sharing.{Party, contains, is_empty}
use otg_premium_version.Party.State.{
  update, remove_first, remove_all, is_party, clear_parties, drop_invitations,
}

-- How often a player is in a party, the leader counted with the members.
abbrev pub inside : ℕ → Option Party → ℕ
inside player none = 0
inside player (some p) = (if p.leader == player then 1 else 0) + count player p.members

abbrev pub invited : ℕ → Option Party → ℕ
invited player none = 0
invited player (some p) = count player p.invites

-- Whether `Player::party` is the party, as a number.
abbrev pub points : ℕ → Option ℕ → ℕ
points q none = 0
points q (some r) = if r == q then 1 else 0

pub contains-count : (x : ℕ) (xs : List ℕ) → contains x xs ≡ not (count x xs == 0)
unfolding contains
contains-count x [] = ground arith
contains-count x (y ∷ ys) = ground (arith, contains-count x ys)

pub is_party-points : (q : ℕ) (o : Option ℕ) → is_party q o ≡ not (points q o == 0)
unfolding is_party
is_party-points q none = ground arith
is_party-points q (some r) = ground arith

pub count-remove_first :
    (x y : ℕ) (xs : List ℕ)
    → count x (remove_first y xs) ≡ (if y == x then count x xs - 1 else count x xs)
unfolding remove_first
count-remove_first x y [] = ground arith
count-remove_first x y (z ∷ zs) = ground (arith, count-remove_first x y zs)

pub count-remove_all :
    (x y : ℕ) (xs : List ℕ) → count x (remove_all y xs) ≡ (if y == x then 0 else count x xs)
unfolding remove_all
count-remove_all x y [] = ground arith
count-remove_all x y (z ∷ zs) = ground (arith, count-remove_all x y zs)

pub clear_parties_lem :
    (ms : List ℕ) (f : ℕ → Option ℕ) (player : ℕ)
    → clear_parties ms f player ≡ (if count player ms == 0 then f player else none)
unfolding clear_parties
clear_parties_lem [] f player = ground arith
clear_parties_lem (m ∷ ms) f player = ground (arith, clear_parties_lem ms (update f m none) player)

pub count-drop_invitations :
    (q r : ℕ) (xs : List ℕ) (f : ℕ → List ℕ) (player : ℕ)
    → count r (drop_invitations q xs f player)
      ≡ (if q == r && not (count player xs == 0) then 0 else count r (f player))
unfolding drop_invitations
count-drop_invitations q r [] f player = ground arith
count-drop_invitations q r (x ∷ xs) f player = ground (
  arith,
  count-drop_invitations q r xs (update f x (remove_all q (f x))) player,
  count-remove_all r q (f x),
)

pub count_empty : (x : ℕ) (xs : List ℕ) → is_empty xs ≡ true → count x xs ≡ 0
unfolding is_empty
count_empty x [] h = refl
count_empty x (y ∷ ys) h = absurd (ground arith)
