-- ===== src/Party/State.antt =====
-- What the party code of source/src/party.cpp and player.cpp writes, over all parties and players.
use otg_premium_version.Common.{
  ℕ, Bool, false, Option, none, some, List, [], ◌∷◌, ◌==◌, if◌then◌else◌,
}
use otg_premium_version.Party.Sharing.{Party}

-- A party that is deleted is `none`; `party_of` is `Player::party`, and `invitations` is
-- `Player::invitePartyList`.
pub record World : Type 0 where
  pub parties : ℕ → Option Party
  pub party_of : ℕ → Option ℕ
  pub invitations : ℕ → List ℕ
  pub next_party : ℕ

unfoldable pub update {ℓ} : {A : Type ℓ} → (ℕ → A) → ℕ → A → ℕ → A
update f k v i = if i == k then v else f i

unfoldable pub set_party : ℕ → Party → World → World
unfolding update
set_party q p w = record w { parties = update w.parties q (some p) }

-- `std::find` and `erase`
unfoldable pub remove_first : ℕ → List ℕ → List ℕ
remove_first x [] = []
remove_first x (y ∷ ys) = if y == x then ys else y ∷ remove_first x ys

-- `std::forward_list::remove`
unfoldable pub remove_all : ℕ → List ℕ → List ℕ
remove_all x [] = []
remove_all x (y ∷ ys) = if y == x then remove_all x ys else y ∷ remove_all x ys

-- `player->getParty() == this`
unfoldable pub is_party : ℕ → Option ℕ → Bool
is_party q none = false
is_party q (some r) = r == q

-- `member->setParty(nullptr)` for each member.
unfoldable pub clear_parties : List ℕ → (ℕ → Option ℕ) → ℕ → Option ℕ
unfolding update
clear_parties [] party_of = party_of
clear_parties (m ∷ ms) party_of = clear_parties ms (update party_of m none)

-- `invitee->removePartyInvitation(this)` for each invitee.
unfoldable pub drop_invitations : ℕ → List ℕ → (ℕ → List ℕ) → ℕ → List ℕ
unfolding update remove_all
drop_invitations q [] invitations = invitations
drop_invitations q (x ∷ xs) invitations =
    drop_invitations q xs (update invitations x (remove_all q (invitations x)))
