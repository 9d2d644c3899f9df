-- ===== src/App/Server/Restart/Tests.antt =====
-- A stop behind the twentieth bad request of a client.
use http_file_sharing.Prelude.{◌≡◌, refl, true, some, [], codes}
use http_file_sharing.Prelude.Int.{pos}
use http_file_sharing.Prelude.Dict.{find, emplace}
use http_file_sharing.Filesys.Tests.{small_dir, executable}
use http_file_sharing.App.Options.{default_options}
use http_file_sharing.App.Blacklist.{
  done, is_ipaddr_blacklisted, get_score_for_ipaddr, init_blacklist, map_written,
}
use http_file_sharing.App.Blacklist.Sync.{new_score}
use http_file_sharing.App.Blacklist.Tests.{row_list, row_list-IsStats}
use http_file_sharing.App.Server.Files.Tests.{input_net, listener}
use http_file_sharing.App.Server.Restart.{restart_keeps_scores}
use http_file_sharing.App.Server.Shunned.Tests.{bad, bad_began, bad_dropped, to_dropped}

read_back : init_blacklist row_list bad [] ≡ done bad
unfolding init_blacklist emplace find
read_back = refl

restart_keeps_scores_example :
    (get_score_for_ipaddr bad (codes "10.0.0.1")
      ≡ get_score_for_ipaddr bad_dropped.stats (codes "10.0.0.1"))
    × (is_ipaddr_blacklisted default_options.blacklist_threshold bad (codes "10.0.0.1")
        ≡ is_ipaddr_blacklisted default_options.blacklist_threshold bad_dropped.stats
            (codes "10.0.0.1"))
    × (get_score_for_ipaddr
          (map_written (codes "10.0.0.1") true bad_dropped.stats)
          (codes "10.0.0.1")
        ≡ some (new_score (get_score_for_ipaddr bad (codes "10.0.0.1")) true))
restart_keeps_scores_example =
    restart_keeps_scores (input_net []) row_list default_options small_dir executable 2000
      row_list-IsStats (pos 8080) (pos 5) 2 bad bad ([], []) listener bad (codes "10.0.0.1")
      (codes "10.0.0.1") true (λ ip. refl) bad_began to_dropped read_back
