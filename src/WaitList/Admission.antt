-- ===== src/WaitList/Admission.antt =====
-- `clientLogin` of source/src/waitlist.cpp: who is let in, who queues, and what the queue keeps.
use otg_premium_version.Common.{
  ℕ, zero, suc, ◌+◌, ◌-◌, ◌≤◌, ◌<◌, ◌≡◌, refl, List, [], ◌∷◌, ◌++◌, arith, length, ◌==◌, ltb, leb,
  ◌⊎◌, ◌↔◌, Bool, true, false, if◌then◌else◌, length-append, map, ap, ◌||◌, ◌&&◌,
}
use otg_premium_version.WaitList.{
  Wait, WaitListInfo, Iterator, in_priority, in_regular, at_end, Login, Outcome, admitted, waits,
  undefined, client_login, resume, cleaned, enqueue, erase_at, set_timeout, gamemaster, is_empty,
  deadline,
}
use otg_premium_version.WaitList.Cleanup.{count, count-cleanup_list-le}
use otg_premium_version.WaitList.Search.{
  index_of, queue, place, find_client_lem, index_of-le-length, count-index_of, index_of-count,
}

-- The players who never queue.
abbrev pub IsPrivileged : Login → Type 0
IsPrivileged p = (p.can_always_login ≡ true) ⊎ (gamemaster ≤ p.account_type)

-- Nobody has to queue now: there is no limit, or the queue is empty and a place is free.
abbrev pub IsOpen : Login → WaitListInfo → Type 0
IsOpen p info =
    (p.max_players ≡ 0)
    ⊎ ((info.priority_wait_list ≡ []) × (info.wait_list ≡ []) × (p.players_online < p.max_players))

-- The slot of the player after the clean-up, counted from 1.
abbrev pub slot_of : Login → WaitListInfo → ℕ
slot_of p info = suc (index_of p.guid (queue (cleaned p info)))

resume_place : (p : Login) (info : WaitListInfo) → Outcome
resume_place p info =
    resume p info (place info (index_of p.guid (queue info))) (suc (index_of p.guid (queue info)))

client_login_lem :
    (p : Login) (info : WaitListInfo)
    → client_login p info ≡ (
        if p.can_always_login || leb gamemaster p.account_type
        then admitted info
        else if p.max_players == 0
            || (is_empty info.priority_wait_list
                && is_empty info.wait_list
                && ltb p.players_online p.max_players)
        then admitted info
        else resume_place p (cleaned p info))
unfolding client_login resume_place
client_login_lem p info = rw (find_client_lem (cleaned p info) p.guid)

is_empty_iff : (ws : List Wait) → (is_empty ws ≡ true) ↔ (ws ≡ [])
unfolding is_empty
is_empty_iff [] = ground arith
is_empty_iff (w ∷ ws) = ground arith

-- Whoever is let in is privileged, or nobody has to queue, or their first entry is in the regular
-- list and the players online together with the slot, which counts everyone queued up to them,
-- fit the limit.
pub client_login-admitted :
    (p : Login) (info : WaitListInfo) {out : WaitListInfo}
    → client_login p info ≡ admitted out
    → IsPrivileged p
      ⊎ IsOpen p info
      ⊎ ((length (cleaned p info).priority_wait_list < slot_of p info)
          × (slot_of p info ≤ length (queue (cleaned p info)))
          × (p.players_online + slot_of p info ≤ p.max_players))
unfolding resume_place resume place
client_login-admitted p info h = ground (
  arith,
  client_login_lem p info,
  is_empty_iff info.priority_wait_list,
  is_empty_iff info.wait_list,
)

-- The erasure through the wrong list is reached exactly by an unprivileged player whom the limit
-- concerns, who has an entry in the priority list, and whose turn has come.
pub client_login-undefined_iff :
    (p : Login) (info : WaitListInfo)
    → (client_login p info ≡ undefined) ↔ (
        (¬ IsPrivileged p)
        × (¬ IsOpen p info)
        × (slot_of p info ≤ length (cleaned p info).priority_wait_list)
        × (p.players_online + slot_of p info ≤ p.max_players))
unfolding resume_place resume place
client_login-undefined_iff p info = ground (
  arith,
  client_login_lem p info,
  is_empty_iff info.priority_wait_list,
  is_empty_iff info.wait_list,
)

place-newcomer :
    (g : ℕ) (info : WaitListInfo)
    → count g (queue info) ≡ 0
    → place info (index_of g (queue info)) ≡ at_end
unfolding place
place-newcomer g info h =
    ground
      (arith, index_of-count g (queue info), length-append info.priority_wait_list info.wait_list)

resume_place-newcomer :
    (p : Login) (info : WaitListInfo)
    → count p.guid (queue info) ≡ 0
    → resume_place p info ≡ waits (enqueue p info)
unfolding resume_place resume
resume_place-newcomer p info h = rw (place-newcomer p.guid info h)

pub newcomer-enqueue :
    (p : Login) (info : WaitListInfo)
    → ¬ IsPrivileged p
    → ¬ IsOpen p info
    → count p.guid (queue (cleaned p info)) ≡ 0
    → client_login p info ≡ waits (enqueue p (cleaned p info))
newcomer-enqueue p info not_privileged not_open h = ground (
  arith,
  client_login_lem p info,
  is_empty_iff info.priority_wait_list,
  is_empty_iff info.wait_list,
  resume_place-newcomer p (cleaned p info) h,
)

-- Nobody has two entries.
abbrev pub IsDistinct : WaitListInfo → Type 0
IsDistinct info = (g : ℕ) → count g info.priority_wait_list + count g info.wait_list ≤ 1

abbrev pub Leaves : (WaitListInfo → Type 0) → Outcome → Type 0
Leaves P (admitted info) = P info
Leaves P (waits info) = P info
Leaves P undefined = Unit {0}

count-append : (g : ℕ) (xs ys : List Wait) → count g (xs ++ ys) ≡ count g xs + count g ys
count-append g [] ys = omega arith
count-append g (x ∷ xs) ys = omega (arith, count-append g xs ys)

count-erase_at-le : (g i : ℕ) (ws : List Wait) → count g (erase_at i ws) ≤ count g ws
unfolding erase_at
count-erase_at-le g i [] = omega arith
count-erase_at-le g zero (w ∷ ws) = omega arith
count-erase_at-le g (suc i) (w ∷ ws) = omega (arith, count-erase_at-le g i ws)

count-set_timeout : (g i t : ℕ) (ws : List Wait) → count g (set_timeout i t ws) ≡ count g ws
unfolding set_timeout
count-set_timeout g i t [] = refl
count-set_timeout g zero t (w ∷ ws) = refl
count-set_timeout g (suc i) t (w ∷ ws) = omega (arith, count-set_timeout g i t ws)

cleaned-IsDistinct :
    (p : Login) (info : WaitListInfo) → IsDistinct info → IsDistinct (cleaned p info)
unfolding cleaned
cleaned-IsDistinct p info h g = omega (
  arith,
  h g,
  count-cleanup_list-le p.time_priority g info.priority_wait_list,
  count-cleanup_list-le p.time_regular g info.wait_list,
)

enqueue-IsDistinct :
    (p : Login) (info : WaitListInfo)
    → count p.guid (queue info) ≡ 0
    → IsDistinct info
    → IsDistinct (enqueue p info)
unfolding enqueue
enqueue-IsDistinct p info new h g = ground (
  arith,
  h g,
  count-append p.guid info.priority_wait_list info.wait_list,
  count-append g info.priority_wait_list (
      record {
        timeout = deadline p.time_store (length info.priority_wait_list + 1);
        player_guid = p.guid;
      }
      ∷ []),
  count-append g info.wait_list (
      record {
        timeout =
            deadline p.time_store (length info.priority_wait_list + length info.wait_list + 1);
        player_guid = p.guid;
      }
      ∷ []),
)

Leaves-if :
    (P : WaitListInfo → Type 0) (b : Bool) (x y : Outcome)
    → Leaves P x
    → Leaves P y
    → Leaves P (if b then x else y)
Leaves-if P true x y hx hy = hx
Leaves-if P false x y hx hy = hy

-- What follows the search keeps the entries apart, at the place that the search returns.
resume-IsDistinct :
    (p : Login) (info : WaitListInfo)
    → IsDistinct info
    → (it : Iterator) → it ≡ place info (index_of p.guid (queue info))
    → (slot : ℕ) → Leaves IsDistinct (resume p info it slot)
unfolding resume place
resume-IsDistinct p info h (in_priority i) e slot =
    Leaves-if IsDistinct (leb (p.players_online + slot) p.max_players) undefined _ tt λ g.
      omega (arith, h g, count-set_timeout g i (deadline p.time_store slot) info.priority_wait_list)
resume-IsDistinct p info h (in_regular i) e slot =
    Leaves-if IsDistinct (leb (p.players_online + slot) p.max_players) (admitted _) (waits _)
      (λ g. omega (arith, h g, count-erase_at-le g i info.wait_list))
      λ g. omega (arith, h g, count-set_timeout g i (deadline p.time_store slot) info.wait_list)
resume-IsDistinct p info h at_end e slot =
    enqueue-IsDistinct p info
      (count-index_of p.guid (queue info) (
        ground (
          arith,
          index_of-le-length p.guid (queue info),
          length-append info.priority_wait_list info.wait_list,
        )))
      h

-- No call of `clientLogin` gives a player a second entry, in whichever list.
pub client_login-IsDistinct :
    (p : Login) (info : WaitListInfo) → IsDistinct info → Leaves IsDistinct (client_login p info)
unfolding resume_place
client_login-IsDistinct p info h = rw (client_login_lem p info) (
    Leaves-if IsDistinct (p.can_always_login || leb gamemaster p.account_type) _ _ h (
      Leaves-if IsDistinct
        (p.max_players == 0
          || (is_empty info.priority_wait_list
              && is_empty info.wait_list
              && ltb p.players_online p.max_players))
        _ _ h (resume-IsDistinct p (cleaned p info) (cleaned-IsDistinct p info h) _ refl _)))

-- The order in which a list's players stand.
abbrev pub guids : List Wait → List ℕ
guids = map (λ w. w.player_guid)

guids-set_timeout : (i t : ℕ) (ws : List Wait) → guids (set_timeout i t ws) ≡ guids ws
unfolding set_timeout
guids-set_timeout i t [] = refl
guids-set_timeout zero t (w ∷ ws) = refl
guids-set_timeout (suc i) t (w ∷ ws) = ap (◌∷◌ w.player_guid) (guids-set_timeout i t ws)

-- A queued player who is told to wait on keeps the place: both lists hold the same players in
-- the same order as after the clean-up.
pub client_login-keeps_order :
    (p : Login) (info : WaitListInfo) {out : WaitListInfo}
    → client_login p info ≡ waits out
    → slot_of p info ≤ length (queue (cleaned p info))
    → (guids out.priority_wait_list ≡ guids (cleaned p info).priority_wait_list)
      × (guids out.wait_list ≡ guids (cleaned p info).wait_list)
unfolding resume_place resume place
client_login-keeps_order p info h there =
    let i : ℕ = index_of p.guid (queue (cleaned p info)) in
    let t : ℕ = deadline p.time_store (suc i) in
    ground (
      arith,
      client_login_lem p info,
      guids-set_timeout i t (cleaned p info).priority_wait_list,
      guids-set_timeout (i - length (cleaned p info).priority_wait_list) t
          (cleaned p info).wait_list,
    )
