-- ===== src/App/Blacklist/Tests.antt =====
-- A database that is a list of rows, and runs on it.
use http_file_sharing.Prelude.{
  ◌≡◌, refl, ◌≢◌, ◌⊎◌, Bool, true, false, not, some, List, arith, [], ◌∷◌, if◌then◌else◌, Bytes,
  codes, bytes_eq,
}
use http_file_sharing.Prelude.Int.{negsuc, ◌+ℤ◌, ltb_ℤ}
use http_file_sharing.Prelude.Dict.{find, emplace, assign, find-assign}
use http_file_sharing.App.Blacklist.{
  Sqlite, done, insert_query, StatsList, is_ipaddr_blacklisted, get_score_for_ipaddr,
  update_ip_addr_stats, init_blacklist,
}
use http_file_sharing.App.Blacklist.Stats.{IsStats}
use http_file_sharing.App.Blacklist.Sync.{
  IsSynced, new_score, find-emplace_new, update_ip_addr_stats_sync,
}
use http_file_sharing.App.Blacklist.Bounds.{HasRoom, update_all_no_overflow}
use http_file_sharing.App.Blacklist.Score.{update_all, update_verdict}

abbrev pub row_list : Sqlite
row_list = record {
  Db = StatsList;
  can_open = λ db. true;
  prepare_ok = λ query db. true;
  bind_int_ok = λ query n score. true;
  bind_text_ok = λ query n ip. true;
  step_done = λ query score ip db. true;
  step = λ query score ip db.
      if bytes_eq query insert_query then emplace ip score db else assign ip score db;
  rows = λ db. db;
}

pub row_list-IsStats : IsStats row_list
row_list-IsStats = record {
  inserted = λ ip j score db e h. find-emplace_new ip j score db h;
  updated = λ ip j score old db e h. find-assign ip j score old db h;
}

abbrev home : Bytes
home = codes "10.0.0.1"

abbrev one_bad : StatsList
one_bad = (home, negsuc 0) ∷ []

second_bad :
    update_ip_addr_stats row_list (negsuc 14) home false one_bad one_bad
    ≡ done (true, (home, negsuc 1) ∷ [], (home, negsuc 1) ∷ [])
unfolding update_ip_addr_stats find assign ◌+ℤ◌
second_bad = refl

update_ip_addr_stats_sync_example :
    IsSynced row_list ((home, negsuc 1) ∷ []) ((home, negsuc 1) ∷ [])
    × ((j : Bytes)
        → find j ((home, negsuc 1) ∷ []) ≡ (
            if bytes_eq home j then some (new_score (find home one_bad) false) else find j one_bad))
    × (true ≡ ltb_ℤ (negsuc 14) (new_score (find home one_bad) false))
update_ip_addr_stats_sync_example =
    update_ip_addr_stats_sync row_list row_list-IsStats (negsuc 14) home false one_bad one_bad
      (λ ip. refl) second_bad

update_verdict_example :
    ((new_score (find home one_bad) false ≢ negsuc 14)
      × (true ≡ not (is_ipaddr_blacklisted (negsuc 14) ((home, negsuc 1) ∷ []) home)))
    ⊎ ((new_score (find home one_bad) false ≡ negsuc 14)
        × (true ≡ false)
        × (is_ipaddr_blacklisted (negsuc 14) ((home, negsuc 1) ∷ []) home ≡ false))
update_verdict_example =
    update_verdict row_list row_list-IsStats (negsuc 14) home false one_bad one_bad (λ ip. refl)
      second_bad

loaded : init_blacklist row_list one_bad [] ≡ done one_bad
unfolding init_blacklist emplace find
loaded = refl

abbrev visits : List (Bytes × Bool)
visits = (home, true) ∷ (home, false) ∷ (home, false) ∷ []

visited :
    update_all row_list (negsuc 14) visits [] []
    ≡ done ((home, negsuc 0) ∷ [], (home, negsuc 0) ∷ [])
unfolding update_all update_ip_addr_stats find assign emplace ◌+ℤ◌
visited = refl

update_all_no_overflow_example : HasRoom 0 (negsuc 0)
unfolding get_score_for_ipaddr find
update_all_no_overflow_example =
    update_all_no_overflow row_list row_list-IsStats (negsuc 14) visits [] ((home, negsuc 0) ∷ [])
      [] ((home, negsuc 0) ∷ []) home (λ ip. refl) visited (omega arith, omega arith) refl
