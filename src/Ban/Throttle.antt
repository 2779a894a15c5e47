-- ===== src/Ban/Throttle.antt =====
-- What the throttle of source/src/ban.cpp promises to each address.
use otg_premium_version.Common.{
  ℕ, ◌+◌, ◌^◌, ◌≤◌, ◌<◌, Bool, true, false, ◌&&◌, Option, none, some, List, [], ◌∷◌, ◌==◌,
  if◌then◌else◌, ltb, leb, length, ◌≡◌, refl, arith, Option-cases, Bool-cases, inl, inr,
}
use otg_premium_version.Ban.{
  ConnectBlock, IpConnectMap, find, set, emplace, time_diff, at_most, attempt, accept_connection,
}

find-set :
    (ip other : ℕ) (b : ConnectBlock) (m : IpConnectMap) {c : ConnectBlock}
    → find ip m ≡ some c
    → find other (set ip b m) ≡ (if ip == other then some b else find other m)
unfolding find set
find-set ip other b [] h = absurd (ground arith)
find-set ip other b ((k, d) ∷ m) {c} h = elim (Bool-cases (k == ip)) [
  | inl e ↦ ground arith
  | inr e ↦ ground (arith, find-set ip other b m {c = c} (ground arith))
]

find-emplace :
    (ip other : ℕ) (b : ConnectBlock) (m : IpConnectMap)
    → find ip m ≡ none
    → find other (emplace ip b m) ≡ (if ip == other then some b else find other m)
unfolding find emplace
find-emplace ip other b [] h = refl
find-emplace ip other b ((k, d) ∷ m) h = ground (arith, find-emplace ip other b m)

-- An attempt of an address by itself, as a specification of the table.
unfoldable pub attempt_of : ℕ → Option ConnectBlock → ConnectBlock × Bool
attempt_of time none = (record { last_attempt = time; block_time = 0; count = 1 }, true)
attempt_of time (some b) = attempt time b

-- acceptConnection answers and keeps for each address what the attempts of this address alone
-- give, and changes the entry of no other address.
pub accept_connection_lem :
    (ip other time : ℕ) (m : IpConnectMap)
    → ((accept_connection ip time m).1 ≡ (attempt_of time (find ip m)).1)
      × (find other (accept_connection ip time m).0
          ≡ (if ip == other then some (attempt_of time (find ip m)).0 else find other m))
unfolding accept_connection attempt_of
accept_connection_lem ip other time m = elim (Option-cases (find ip m)) [
  | inl e ↦ rw (e, accept_connection, attempt_of) (refl, find-emplace ip other _ m e)
  | inr (b, e) ↦
      rw (e, accept_connection, attempt_of) (refl, find-set ip other (attempt time b).0 m e)
]

-- Attempts of which each comes at most 500 ms behind the one before.
unfoldable pub burst : ℕ → List ℕ → Bool
burst prev [] = true
burst prev (t ∷ ts) = leb prev t && leb t (prev + 500) && ltb t (2 ^ 63) && burst t ts

unfoldable pub all_accepted : ℕ → List ℕ → IpConnectMap → Bool
unfolding accept_connection
all_accepted ip [] m = true
all_accepted ip (t ∷ ts) m =
    (accept_connection ip t m).1 && all_accepted ip ts (accept_connection ip t m).0

attempt-accepted :
    (t : ℕ) (b : ConnectBlock)
    → (attempt t b).1 ≡ true
    → ((attempt t b).0.last_attempt ≡ t) × ((attempt t b).0.count ≤ 5)
unfolding attempt
attempt-accepted t b h = (ground arith, ground arith)

attempt-burst :
    (t : ℕ) (b : ConnectBlock)
    → b.last_attempt ≤ t
    → t ≤ b.last_attempt + 500
    → t < 2 ^ 63
    → b.count ≤ 5
    → (attempt t b).1 ≡ true
    → ((attempt t b).0.count ≡ b.count + 1)
unfolding attempt at_most time_diff
attempt-burst t b h1 h2 h3 h4 h5 = ground arith

find-accept :
    (ip t : ℕ) (m : IpConnectMap)
    → find ip (accept_connection ip t m).0 ≡ some (attempt_of t (find ip m)).0
find-accept ip t m = ground (arith, accept_connection_lem ip ip t m)

accepted-length :
    (ip : ℕ) (m : IpConnectMap) (b : ConnectBlock) (ts : List ℕ)
    → find ip m ≡ some b
    → b.count ≤ 5
    → burst b.last_attempt ts ≡ true
    → all_accepted ip ts m ≡ true
    → b.count + length ts ≤ 5
unfolding burst all_accepted attempt_of
accepted-length ip m b [] f c h a = omega arith
accepted-length ip m b (t ∷ ts) f c h a =
    let ok : (attempt t b).1 ≡ true = ground (arith, accept_connection_lem ip ip t m) in
    let below = attempt-accepted t b ok in
    let more = attempt-burst t b (ground arith) (ground arith) (ground arith) c ok in
    let rest =
      accepted-length ip (accept_connection ip t m).0 (attempt t b).0 ts
        (ground (arith, find-accept ip t m)) (omega arith) (ground arith) (ground arith) in
    omega arith

attempt_of-accepted :
    (t : ℕ) (o : Option ConnectBlock)
    → (attempt_of t o).1 ≡ true
    → ((attempt_of t o).0.last_attempt ≡ t) × ((attempt_of t o).0.count ≤ 5)
unfolding attempt_of
attempt_of-accepted t none h = (refl, omega arith)
attempt_of-accepted t (some b) h = attempt-accepted t b h

-- Of an attempt and six more, each at most 500 ms behind the one before, not all are accepted,
-- whatever the table holds.
pub burst-refused :
    (ip first : ℕ) (ts : List ℕ) (m : IpConnectMap)
    → burst first ts ≡ true
    → 6 ≤ length ts
    → all_accepted ip (first ∷ ts) m ≡ false
unfolding all_accepted
burst-refused ip first ts m h n = elim (Bool-cases (all_accepted ip (first ∷ ts) m)) [
  | inr e ↦ e
  | inl e ↦
      let known =
        attempt_of-accepted first (find ip m)
          (ground (arith, accept_connection_lem ip ip first m)) in
      let few =
        accepted-length ip (accept_connection ip first m).0 (attempt_of first (find ip m)).0 ts
          (find-accept ip first m) (omega arith) (rw known.0 h) (ground arith) in
      absurd (omega arith)
]

attempt-waited :
    (t : ℕ) (b : ConnectBlock)
    → b.block_time ≤ t
    → b.last_attempt + 500 < t
    → t < 2 ^ 63
    → (attempt t b).1 ≡ true
unfolding attempt at_most time_diff
attempt-waited t b h k s = ground arith

-- An attempt of a known address is accepted when its block is over and the attempt before it is
-- more than 500 ms ago.
pub accept_connection-waited :
    (ip t : ℕ) (m : IpConnectMap) {b : ConnectBlock}
    → find ip m ≡ some b
    → b.block_time ≤ t
    → b.last_attempt + 500 < t
    → t < 2 ^ 63
    → (accept_connection ip t m).1 ≡ true
unfolding attempt_of
accept_connection-waited ip t m {b} f h k s =
    ground (arith, accept_connection_lem ip ip t m, attempt-waited t b h k s)

attempt-block_time :
    (t : ℕ) (b : ConnectBlock)
    → (attempt t b).1 ≡ false
    → b.block_time < 2 ^ 63
    → t < 2 ^ 63
    → t + 250 < (attempt t b).0.block_time
unfolding attempt
attempt-block_time t b h k l = ground arith

attempt-blocked : (t : ℕ) (b : ConnectBlock) → t < b.block_time → (attempt t b).1 ≡ false
unfolding attempt
attempt-blocked t b h = ground arith

-- Whoever is refused and tries again within 250 ms is refused again.
pub accept_connection-refused :
    (ip t later : ℕ) (m : IpConnectMap) {b : ConnectBlock}
    → find ip m ≡ some b
    → b.block_time < 2 ^ 63
    → t < 2 ^ 63
    → (accept_connection ip t m).1 ≡ false
    → later ≤ t + 250
    → (accept_connection ip later (accept_connection ip t m).0).1 ≡ false
unfolding attempt_of
accept_connection-refused ip t later m {b} f k l h r =
    let refused : (attempt t b).1 ≡ false = ground (arith, accept_connection_lem ip ip t m) in
    ground (
      arith,
      accept_connection_lem ip ip later (accept_connection ip t m).0,
      find-accept ip t m,
      attempt-blocked later (attempt t b).0 (omega (arith, attempt-block_time t b refused k l)),
    )
