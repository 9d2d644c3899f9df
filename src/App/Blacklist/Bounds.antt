-- ===== src/App/Blacklist/Bounds.antt =====
-- How far a score can go, and so how long the `int` of the program can hold it.
use http_file_sharing.Prelude.{
  ℕ, zero, suc, ◌+◌, ◌^◌, ◌≤◌, ◌<◌, ◌≡◌, sym, ◌∙◌, Bool, true, false, Option, none, some, List, [],
  ◌∷◌, arith, of_some, none-ne-some, length, Bytes,
}
use http_file_sharing.Prelude.Int.{ℤ, pos, pos_part, neg_part, sub_ℕ, ◌+ℤ◌}
use http_file_sharing.App.Blacklist.{Sqlite, done, StatsList, get_score_for_ipaddr}
use http_file_sharing.App.Blacklist.Stats.{IsStats}
use http_file_sharing.App.Blacklist.Sync.{IsSynced}
use http_file_sharing.App.Blacklist.Score.{count_of, settled, update_all, update_all_score}

-- The number is in the range of an int of 32 bits, with `room` to spare on both sides.
abbrev pub HasRoom : ℕ → ℤ → Type 0
HasRoom room n = (pos_part n + room < 2 ^ 31) × (neg_part n + room ≤ 2 ^ 31)

-- An address without a score counts as one with the score 0.
abbrev pub RoomFor : ℕ → Option ℤ → Type 0
RoomFor room none = HasRoom room (pos 0)
RoomFor room (some n) = HasRoom room n

count_of_both :
    (ip : Bytes) (history : List (Bytes × Bool))
    → count_of ip true history + count_of ip false history ≤ length history
count_of_both ip [] = omega arith
count_of_both ip ((j, true) ∷ history) = ground (arith, count_of_both ip history)
count_of_both ip ((j, false) ∷ history) = ground (arith, count_of_both ip history)

settled-HasRoom :
    (o : Option ℤ) (goods bads room : ℕ) (n : ℤ)
    → goods + bads ≤ room
    → RoomFor room o
    → settled o goods bads ≡ some n
    → HasRoom 0 n
unfolding ◌+ℤ◌
settled-HasRoom none zero zero room n c h e = absurd (none-ne-some n e)
settled-HasRoom none zero (suc b) room n c h e =
    of_some (HasRoom 0) (sub_ℕ 0 (suc b)) n e (ground arith)
settled-HasRoom none (suc g) b room n c h e =
    of_some (HasRoom 0) (sub_ℕ (suc g) b) n e (ground arith)
settled-HasRoom (some old) g b room n c h e =
    of_some (HasRoom 0) (old +ℤ sub_ℕ g b) n e (ground arith)

-- No score overflows: over any history of requests that the process survives, from a map and a table
-- that agree, when the old score of an address, or 0 if it has none, is further from both ends of a
-- 32-bit int than the history is long, its score afterwards is in the range of such an int.
pub update_all_no_overflow :
    (sql : Sqlite) (law : IsStats sql) (threshold : ℤ) (history : List (Bytes × Bool))
    (stats stats' : StatsList) (db db' : sql.Db) (ip : Bytes) {score : ℤ}
    → IsSynced sql stats db
    → update_all sql threshold history stats db ≡ done (stats', db')
    → RoomFor (length history) (get_score_for_ipaddr stats ip)
    → get_score_for_ipaddr stats' ip ≡ some score
    → HasRoom 0 score
update_all_no_overflow sql law threshold history stats stats' db db' ip {score} sync h room e =
    settled-HasRoom (get_score_for_ipaddr stats ip) (count_of ip true history)
      (count_of ip false history) (length history) score (count_of_both ip history) room
      (sym (update_all_score sql law threshold history stats stats' db db' ip sync h).1 ∙ e)
