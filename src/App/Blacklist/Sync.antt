-- ===== src/App/Blacklist/Sync.antt =====
-- The map and the table hold the same scores, also across a restart.
use http_file_sharing.Prelude.{
  ◌≡◌, refl, sym, ap, ◌∙◌, inl, inr, Bool, true, Option, none, some, List, [], ◌∷◌, arith,
  if◌then◌else◌, Bool-cases, Option-cases, Bytes, bytes_eq, bytes_eq_sound,
}
use http_file_sharing.Prelude.Int.{ℤ, ◌+ℤ◌, ltb_ℤ}
use http_file_sharing.Prelude.Dict.{find, emplace, find-emplace, find-assign, or_else}
use http_file_sharing.App.Blacklist.{
  Sqlite, Outcome, done, exited, thrown, insert_query, update_query, StatsList, credit,
  insert_update_stats_db, insert_into_stats_db, update_in_stats_db, verdict, map_written,
  update_ip_addr_stats, load_rows, init_blacklist,
}
use http_file_sharing.App.Blacklist.Stats.{IsStats}

-- The new score of an address.
abbrev pub new_score : Option ℤ → Bool → ℤ
new_score none good = credit good
new_score (some score) good = score +ℤ credit good

pub find-emplace_new :
    (ip j : Bytes) (score : ℤ) (stats : StatsList)
    → find ip stats ≡ none
    → find j (emplace ip score stats) ≡ (if bytes_eq ip j then some score else find j stats)
find-emplace_new ip j score stats e = elim (Bool-cases (bytes_eq ip j)) [
  | inl same ↦
      let here : find j stats ≡ none = rw (← bytes_eq_sound ip j same) e in
      rw (same, find-emplace ip j score stats, same, here)
  | inr other ↦ rw (other, find-emplace ip j score stats, other) (or_else_none (find j stats))
]
  where
    or_else_none : (o : Option ℤ) → or_else o none ≡ o
    or_else_none none = refl
    or_else_none (some z) = refl

-- Behind the write to the map the address has its new score, and every other address what it had.
pub map_written-find :
    (ip j : Bytes) (good : Bool) (stats : StatsList)
    → find j (map_written ip good stats)
      ≡ (if bytes_eq ip j then some (new_score (find ip stats) good) else find j stats)
unfolding map_written
map_written-find ip j good stats = elim (Option-cases (find ip stats)) [
  | inl e ↦ rw (e, map_written) (find-emplace_new ip j (credit good) stats e)
  | inr (old, e) ↦ rw (e, map_written) (find-assign ip j (old +ℤ credit good) old stats e)
]

module _ (sql : Sqlite) where
  -- Every address has the same score in the map and in the table, or none in both.
  abbrev pub IsSynced : StatsList → sql.Db → Type 0
  IsSynced stats db = (ip : Bytes) → find ip stats ≡ find ip (sql.rows db)

  insert_update_done :
      (query ip : Bytes) (score : ℤ) (db db' : sql.Db)
      → insert_update_stats_db sql query ip score db ≡ done db'
      → (sql.step_done query score ip db ≡ true) × (sql.step query score ip db ≡ db')
  unfolding insert_update_stats_db
  insert_update_done query ip score db db' h = ground arith

  verdict_done :
      (threshold score : ℤ) (stats stats' : StatsList) (o : Outcome sql.Db) (b : Bool)
      (db' : sql.Db)
      → verdict sql threshold score stats o ≡ done (b, stats', db')
      → (o ≡ done db') × (stats ≡ stats') × (b ≡ ltb_ℤ threshold score)
  unfolding verdict
  verdict_done threshold score stats stats' (done db) b db' h = ground arith
  verdict_done threshold score stats stats' exited b db' h = ground arith
  verdict_done threshold score stats stats' thrown b db' h = ground arith

  module _ (law : IsStats sql) (threshold : ℤ) (ip : Bytes) (good : Bool) where
    -- What an update does, to the map, to the table and in its result.
    abbrev pub Updated : StatsList → sql.Db → Bool → StatsList → sql.Db → Type 0
    Updated stats db b stats' db' =
        let score = new_score (find ip stats) good in
        ((j : Bytes) → find j stats' ≡ (if bytes_eq ip j then some score else find j stats))
        × ((j : Bytes)
            → find j (sql.rows db') ≡ (if bytes_eq ip j then some score else find j (sql.rows db)))
        × (b ≡ ltb_ℤ threshold score)

    update_new :
        (stats : StatsList) (db : sql.Db) {b : Bool} {stats' : StatsList} {db' : sql.Db}
        → find ip stats ≡ none
        → find ip (sql.rows db) ≡ none
        → update_ip_addr_stats sql threshold ip good stats db ≡ done (b, stats', db')
        → Updated stats db b stats' db'
    unfolding update_ip_addr_stats insert_into_stats_db
    update_new stats db {b} {stats'} {db'} e e' h =
        let (stored, kept, said) =
          verdict_done threshold (credit good) _ stats' _ b db'
            (rw (e, update_ip_addr_stats) at h) in
        let (stepped, now) = insert_update_done insert_query ip (credit good) db db' stored in
        rw (← kept, ← now, said, e)
          (
            (λ j. map_written-find ip j good stats ∙ rw e),
            (λ j. law.inserted ip j (credit good) db stepped e'),
            refl,
          )

    update_known :
        (stats : StatsList) (db : sql.Db) (old : ℤ) {b : Bool} {stats' : StatsList} {db' : sql.Db}
        → find ip stats ≡ some old
        → find ip (sql.rows db) ≡ some old
        → update_ip_addr_stats sql threshold ip good stats db ≡ done (b, stats', db')
        → Updated stats db b stats' db'
    unfolding update_ip_addr_stats update_in_stats_db
    update_known stats db old {b} {stats'} {db'} e e' h =
        let score = old +ℤ credit good in
        let (stored, kept, said) =
          verdict_done threshold score _ stats' _ b db' (rw (e, update_ip_addr_stats) at h) in
        let (stepped, now) = insert_update_done update_query ip score db db' stored in
        rw (← kept, ← now, said, e)
          (
            (λ j. map_written-find ip j good stats ∙ rw e),
            (λ j. law.updated ip j score old db stepped e'),
            refl,
          )

    update_Updated :
        (stats : StatsList) (db : sql.Db) {b : Bool} {stats' : StatsList} {db' : sql.Db}
        → IsSynced stats db
        → update_ip_addr_stats sql threshold ip good stats db ≡ done (b, stats', db')
        → Updated stats db b stats' db'
    update_Updated stats db sync h = elim (Option-cases (find ip stats)) [
      | inl e ↦ update_new stats db e (sym (sync ip) ∙ e) h
      | inr (old, e) ↦ update_known stats db old e (sym (sync ip) ∙ e) h
    ]

    -- From a map and a table that agree, an update that ends leaves both agreeing: the address has
    -- its old score plus or minus one (from 0 if it is new), every other address keeps what it had,
    -- and the result is true exactly if the new score is above the threshold.
    pub update_ip_addr_stats_sync :
        (stats : StatsList) (db : sql.Db) {b : Bool} {stats' : StatsList} {db' : sql.Db}
        → IsSynced stats db
        → update_ip_addr_stats sql threshold ip good stats db ≡ done (b, stats', db')
        → IsSynced stats' db'
          × ((j : Bytes)
              → find j stats'
                ≡ (if bytes_eq ip j then some (new_score (find ip stats) good) else find j stats))
          × (b ≡ ltb_ℤ threshold (new_score (find ip stats) good))
    update_ip_addr_stats_sync stats db {b} {stats'} {db'} sync h =
        let (in_map, in_table, said) = update_Updated stats db sync h in
        (
          (λ j.
              in_map j
              ∙ ap (λ o. if bytes_eq ip j then some (new_score (find ip stats) good) else o)
                  (sync j)
              ∙ sym (in_table j)),
          in_map,
          said,
        )

  load_rows-find :
      (rows : List (Bytes × ℤ)) (stats stats' : StatsList) (k : Bytes)
      → load_rows sql rows stats ≡ done stats'
      → find k stats' ≡ or_else (find k stats) (find k rows)
  unfolding load_rows find
  load_rows-find [] stats stats' k h = ground arith
  load_rows-find ((ip, count) ∷ rows) stats stats' k h =
      ground (
        arith,
        load_rows-find rows (emplace ip count stats) stats' k,
        find-emplace ip k count stats,
      )

  -- A restart: whenever init_blacklist ends, over an empty map, the map agrees with the table.
  pub init_blacklist_sync :
      (db : sql.Db) {stats : StatsList} → init_blacklist sql db [] ≡ done stats → IsSynced stats db
  unfolding init_blacklist
  init_blacklist_sync db {stats} h ip =
      let loaded : load_rows sql (sql.rows db) [] ≡ done stats = ground arith in
      load_rows-find (sql.rows db) [] stats ip loaded ∙ unfold find in refl
