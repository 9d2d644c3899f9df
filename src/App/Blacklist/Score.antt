-- ===== src/App/Blacklist/Score.antt =====
-- What a score counts, and how the two tests of a score against the threshold differ.
use http_file_sharing.Prelude.{
  ℕ, zero, suc, ◌≡◌, refl, sym, ap, ◌∙◌, ◌≢◌, ◌⊎◌, inl, inr, Bool, true, false, not, ◌&&◌, ◌||◌,
  Option, none, some, List, [], ◌∷◌, arith, if◌then◌else◌, Bool-cases, Option-cases, Bytes,
  bytes_eq, bytes_eq_sound, bytes_eq_refl,
}
use http_file_sharing.Prelude.Int.{ℤ, sub_ℕ, ◌+ℤ◌, ltb_ℤ, eq_of_parts}
use http_file_sharing.Prelude.Dict.{find}
use http_file_sharing.App.Blacklist.{
  Outcome-cases, Sqlite, Outcome, done, exited, thrown, StatsList, is_ipaddr_blacklisted,
  get_score_for_ipaddr, map_written, update_ip_addr_stats, insert_query, update_query, verdict,
  insert_update_stats_db, insert_into_stats_db, update_in_stats_db,
}
use http_file_sharing.App.Blacklist.Stats.{IsStats}
use http_file_sharing.App.Blacklist.Sync.{IsSynced, new_score, update_ip_addr_stats_sync}

-- The requests of an address in a history, by their outcome.
abbrev pub count_of : Bytes → Bool → List (Bytes × Bool) → ℕ
count_of ip good [] = 0
count_of ip good ((j, g) ∷ history) =
    let rest = count_of ip good history in
    if bytes_eq j ip && (if good then g else not g) then suc rest else rest

-- The score of an address that had `old` after so many good and bad requests.
abbrev pub settled : Option ℤ → ℕ → ℕ → Option ℤ
settled none zero zero = none
settled none goods bads = some (sub_ℕ goods bads)
settled (some old) goods bads = some (old +ℤ sub_ℕ goods bads)

settled_step :
    (o : Option ℤ) (good : Bool) (goods bads : ℕ)
    → settled (some (new_score o good)) goods bads
      ≡ settled o (if good then suc goods else goods) (if good then bads else suc bads)
unfolding ◌+ℤ◌
settled_step none true g b = ground arith
settled_step none false zero b = ground arith
settled_step none false (suc g) b = ground arith
settled_step (some old) true g b = ground arith
settled_step (some old) false g b = ground arith

settled_zero : (o : Option ℤ) → settled o 0 0 ≡ o
unfolding ◌+ℤ◌
settled_zero none = refl
settled_zero (some old) = ground arith

ltb_cases :
    (a b : ℤ)
    → ((a ≢ b) × (ltb_ℤ b a ≡ not (ltb_ℤ a b)))
      ⊎ ((a ≡ b) × (ltb_ℤ b a ≡ false) × (ltb_ℤ a b ≡ false))
ltb_cases a b = elim (Bool-cases (ltb_ℤ a b || ltb_ℤ b a)) [
  | inl h ↦ inl ((λ e. ground arith), ground arith)
  | inr h ↦ inr (ground (arith, eq_of_parts a b), ground arith, ground arith)
]

update_step :
    (j ip : Bytes) (good : Bool) (history : List (Bytes × Bool)) (before mine : Option ℤ)
    → (bytes_eq j ip ≡ true → before ≡ mine)
    → settled
        (if bytes_eq j ip then some (new_score before good) else mine)
        (count_of ip true history)
        (count_of ip false history)
      ≡ settled mine
          (count_of ip true ((j, good) ∷ history))
          (count_of ip false ((j, good) ∷ history))
update_step j ip good history before mine same = elim (Bool-cases (bytes_eq j ip)) [
  | inr other ↦ rw other
  | inl own ↦
      rw (own, same own)
        (settled_step mine good (count_of ip true history) (count_of ip false history)
          ∙ by_outcome good)
]
  where
    by_outcome :
        (g : Bool)
        → settled mine
            (if g then suc (count_of ip true history) else count_of ip true history)
            (if g then count_of ip false history else suc (count_of ip false history))
          ≡ settled mine
              (if g then suc (count_of ip true history) else count_of ip true history)
              (if not g then suc (count_of ip false history) else count_of ip false history)
    by_outcome true = refl
    by_outcome false = refl

module _ (sql : Sqlite) where
  -- On a database that can be opened but has no table that its query can be prepared for, a score
  -- ends the process.
  pub update_unprepared :
      (threshold : ℤ) (ip : Bytes) (good : Bool) (stats : StatsList) (db : sql.Db)
      → sql.can_open db ≡ true
      → ((query : Bytes) → sql.prepare_ok query db ≡ false)
      → update_ip_addr_stats sql threshold ip good stats db ≡ exited
  unfolding update_ip_addr_stats verdict insert_update_stats_db insert_into_stats_db
      update_in_stats_db
  update_unprepared threshold ip good stats db can cannot = elim (Option-cases (find ip stats)) [
    | inl e ↦ ground (arith, e, cannot insert_query)
    | inr (score, e) ↦ ground (arith, e, cannot update_query)
  ]

  -- The updates of a history of requests, one after the other.
  unfoldable pub update_all :
      ℤ → List (Bytes × Bool) → StatsList → sql.Db → Outcome (StatsList × sql.Db)
  update_all threshold [] stats db = done (stats, db)
  update_all threshold ((ip, good) ∷ history) stats db =
      elim (update_ip_addr_stats sql threshold ip good stats db) [
        | done (b, stats', db') ↦ update_all threshold history stats' db'
        | exited ↦ exited
        | thrown ↦ thrown
      ]

  module _ (law : IsStats sql) (threshold : ℤ) where
    -- Over any history of requests that the process survives, from a map and a table that agree,
    -- both still agree, and the score of every address is its old score plus its good requests less
    -- its bad ones; an address without a request keeps what it had.
    pub update_all_score :
        (history : List (Bytes × Bool)) (stats stats' : StatsList) (db db' : sql.Db) (ip : Bytes)
        → IsSynced sql stats db
        → update_all threshold history stats db ≡ done (stats', db')
        → IsSynced sql stats' db'
          × (get_score_for_ipaddr stats' ip
              ≡ settled
                  (get_score_for_ipaddr stats ip)
                  (count_of ip true history)
                  (count_of ip false history))
    unfolding update_all get_score_for_ipaddr
    update_all_score [] stats stats' db db' ip sync h =
        let same : stats ≡ stats' = ground arith in
        let same_db : db ≡ db' = ground arith in
        rw (← same, ← same_db) (sync, sym (settled_zero (find ip stats)))
    update_all_score ((j, good) ∷ history) stats stats' db db' ip sync h =
        elim (Outcome-cases (update_ip_addr_stats sql threshold j good stats db)) [
          | inr (inl e) ↦ absurd (ground arith)
          | inr (inr e) ↦ absurd (ground arith)
          | inl ((b, mid, mid_db), e) ↦
              let (mid_sync, scores, said) =
                update_ip_addr_stats_sync sql law threshold j good stats db sync e in
              let later : update_all threshold history mid mid_db ≡ done (stats', db') =
                rw (e, update_all) at h in
              let rest = update_all_score history mid stats' mid_db db' ip mid_sync later in
              (
                rest.0,
                rest.1
                    ∙ ap (λ o. settled o (count_of ip true history) (count_of ip false history))
                        (scores ip)
                    ∙ update_step j ip good history (find j stats) (find ip stats)
                        (λ own. rw (bytes_eq_sound j ip own)),
              )
        ]

    -- An update that ends, from a map and a table that agree: either the new score is not the
    -- threshold, and the result is true exactly if the address is not blacklisted afterwards; or it
    -- is, and the result is false though the address is not blacklisted.
    pub update_verdict :
        (ip : Bytes) (good : Bool) (stats : StatsList) (db : sql.Db) {b : Bool} {stats' : StatsList}
        {db' : sql.Db}
        → IsSynced sql stats db
        → update_ip_addr_stats sql threshold ip good stats db ≡ done (b, stats', db')
        → let score = new_score (find ip stats) good in
          ((score ≢ threshold) × (b ≡ not (is_ipaddr_blacklisted threshold stats' ip)))
          ⊎ ((score ≡ threshold)
              × (b ≡ false)
              × (is_ipaddr_blacklisted threshold stats' ip ≡ false))
    unfolding is_ipaddr_blacklisted
    update_verdict ip good stats db {b} {stats'} {db'} sync h =
        let score = new_score (find ip stats) good in
        let (synced, scores, said) =
          update_ip_addr_stats_sync sql law threshold ip good stats db sync h in
        let mine : find ip stats' ≡ some score = scores ip ∙ rw (bytes_eq_refl ip) in
        rw (said, mine, is_ipaddr_blacklisted) (ltb_cases score threshold)

  -- The statement that an update needs: an INSERT for an address without a score, else an UPDATE.
  abbrev pub statement : Option ℤ → Bytes
  statement none = insert_query
  statement (some old) = update_query

  update_ends_at :
      (threshold : ℤ) (ip : Bytes) (good : Bool) (stats : StatsList) (db : sql.Db) (o : Option ℤ)
      → find ip stats ≡ o
      → let query = statement o in
        let score = new_score o good in
        sql.can_open db ≡ true
        → sql.prepare_ok query db ≡ true
        → sql.bind_int_ok query 1 score ≡ true
        → sql.bind_text_ok query 2 ip ≡ true
        → sql.step_done query score ip db ≡ true
        → (stats' : StatsList) × (update_ip_addr_stats sql threshold ip good stats db
            ≡ done (ltb_ℤ threshold score, stats', sql.step query score ip db))
  unfolding update_ip_addr_stats
  update_ends_at threshold ip good stats db none e o p i t d =
      (map_written ip good stats, rw (e, update_ip_addr_stats, o, p, i, t, d))
  update_ends_at threshold ip good stats db (some old) e o p i t d =
      (map_written ip good stats, rw (e, update_ip_addr_stats, o, p, i, t, d))

  -- If the database can be opened and accepts the statement, its parameters and its step, then the
  -- update ends, and the table has taken the step of that statement with the new score.
  pub update_ends :
      (threshold : ℤ) (ip : Bytes) (good : Bool) (stats : StatsList) (db : sql.Db)
      → sql.can_open db ≡ true
      → sql.prepare_ok (statement (find ip stats)) db ≡ true
      → sql.bind_int_ok (statement (find ip stats)) 1 (new_score (find ip stats) good) ≡ true
      → sql.bind_text_ok (statement (find ip stats)) 2 ip ≡ true
      → sql.step_done (statement (find ip stats)) (new_score (find ip stats) good) ip db ≡ true
      → (stats' : StatsList) × (update_ip_addr_stats sql threshold ip good stats db
          ≡ done (
            ltb_ℤ threshold (new_score (find ip stats) good),
            stats',
            sql.step (statement (find ip stats)) (new_score (find ip stats) good) ip db,
          ))
  update_ends threshold ip good stats db o p i t d =
      update_ends_at threshold ip good stats db (find ip stats) refl o p i t d
