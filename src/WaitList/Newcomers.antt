-- ===== src/WaitList/Newcomers.antt =====
-- Newcomers in `clientLogin` of source/src/waitlist.cpp.
use mathlib.Core.List.{append-nil}
use otg_premium_version.Common.{
  ◌≡◌, refl, sym, ap, List, [], ◌∷◌, ◌++◌, Bool-cases, inl, inr, if◌then◌else◌,
}
use otg_premium_version.WaitList.{Wait, WaitListInfo, Login, waits, client_login, cleaned, enqueue}
use otg_premium_version.WaitList.Cleanup.{count}
use otg_premium_version.WaitList.Search.{queue}
use otg_premium_version.WaitList.Admission.{IsPrivileged, IsOpen, newcomer-enqueue, guids}

guids-append : (xs ys : List Wait) → guids (xs ++ ys) ≡ guids xs ++ guids ys
guids-append [] ys = refl
guids-append (x ∷ xs) ys = ap (◌∷◌ x.player_guid) (guids-append xs ys)

guids-enqueue :
    (p : Login) (info : WaitListInfo)
    → (guids (enqueue p info).priority_wait_list
        ≡ guids info.priority_wait_list ++ (if p.is_premium then p.guid ∷ [] else []))
      × (guids (enqueue p info).wait_list
          ≡ guids info.wait_list ++ (if p.is_premium then [] else p.guid ∷ []))
unfolding enqueue
guids-enqueue p info = elim (Bool-cases p.is_premium) [
  | inl e ↦ rw e (guids-append info.priority_wait_list _, sym (append-nil (guids info.wait_list)))
  | inr e ↦ rw e (sym (append-nil (guids info.priority_wait_list)), guids-append info.wait_list _)
]

-- A newcomer whom the limit concerns waits: the order of both lists is as the clean-up left it, and
-- the newcomer stands behind the priority list if premium, and else behind the other.
pub client_login-newcomer :
    (p : Login) (info : WaitListInfo)
    → ¬ IsPrivileged p
    → ¬ IsOpen p info
    → count p.guid (queue (cleaned p info)) ≡ 0
    → (info' : WaitListInfo) × (client_login p info ≡ waits info')
      × (guids info'.priority_wait_list
          ≡ guids (cleaned p info).priority_wait_list ++ (if p.is_premium then p.guid ∷ [] else []))
      × (guids info'.wait_list
          ≡ guids (cleaned p info).wait_list ++ (if p.is_premium then [] else p.guid ∷ []))
client_login-newcomer p info not_privileged not_open h =
    let lists = guids-enqueue p (cleaned p info) in
    (
      enqueue p (cleaned p info),
      newcomer-enqueue p info not_privileged not_open h,
      lists.0,
      lists.1,
    )
