-- ===== src/Monitor/Examples.antt =====
-- One peer on the list and one off it; scores are rounded down.
use avail_light.Prelude.{
  ℕ, ◌*◌, ◌/◌, ◌≡◌, refl, Bool, true, false, none, some, List, [], ◌∷◌, ltb, All,
}
use avail_light.Prelude.Assoc.{Assoc, lookup}
use avail_light.Prelude.Sort.{sort_by_key}
use avail_light.Monitor.{
  ServerInfo, MonitorLib, MonitorConfig, PaginationConfig, PeerInfo, PaginatedResponse,
  check_peer_connectivity, validate_page, validate_limit, div_ceil, build_pagination_urls,
  paginate_as_array, blacklisted_info, blacklisted_entries, get_blacklisted_peers,
}
use avail_light.Monitor.Health.{
  Action, started, finished, ping, found, Peer, acts, extends, Represents, Shared, SharedRepresents,
  acts-SharedRepresents, AllRepresent,
}
use avail_light.Monitor.Window.{latest}
use avail_light.Monitor.Pages.{pages_from, pages_from_all, get_blacklisted_peers_unlisted}
use avail_light.Monitor.Tasks.{discovered, pinged_peer, check_peer, check_peer_lost}

abbrev lib : MonitorLib
lib = record {
  Float = ℕ;
  fifty = 50;
  percentage = λ a b. a * 100 / b;
  is_below = ltb;
  is_above = λ score limit. ltb limit score;
  mean = λ xs. 7;
  is_global_address = λ a. ltb 10 a;
}

abbrev config : MonitorConfig
config = record { blacklist_threshold = 20; blacklist_remove_threshold = 60 }

abbrev pagination : PaginationConfig
pagination = record { min_page = 1; min_limit = 1; max_limit = 100 }

abbrev peer_info : Bool → ServerInfo
peer_info b = record {
  multiaddr = 11 ∷ [];
  last_successful_dial = none;
  last_discovered = some 5;
  last_ping_rtt = none;
  ping_records = [];
  is_blacklisted = b;
  connection_results = [];
}

-- Two checks that overlap, with a ping and a discovery in between.
abbrev actions : List Action
actions =
    started
    ∷ ping 30
    ∷ started
    ∷ finished 0 true 6
    ∷ found 7 (4 ∷ 12 ∷ [])
    ∷ finished 0 false 8
    ∷ []

abbrev unknown : Peer
unknown = record { dials = []; pings = []; listed = false }

unknown-Represents : Represents unknown (peer_info false)
unfolding latest
unknown-Represents = record { dials = refl; pings = refl; listed = refl }

abbrev history : Shared Peer
history = record { entry = unknown; copies = [] }

abbrev shared : Shared ServerInfo
shared = record { entry = peer_info false; copies = [] }

acts-SharedRepresents_example :
    SharedRepresents (extends lib config actions history) (acts lib config actions shared)
unfolding AllRepresent
acts-SharedRepresents_example =
    acts-SharedRepresents lib config actions history shared
      (record { entry = unknown-Represents; copies = tt })

pages_from_all_example : pages_from {A = ℕ} (5 ∷ 6 ∷ 7 ∷ []) 2 1 2 ≡ 5 ∷ 6 ∷ 7 ∷ []
unfolding div_ceil
pages_from_all_example = pages_from_all {A = ℕ} (5 ∷ 6 ∷ 7 ∷ []) 1

abbrev servers : Assoc ServerInfo
servers = (3, peer_info true) ∷ (2, peer_info false) ∷ []

abbrev first_page : PaginatedResponse PeerInfo
first_page = record {
  total_items = 1;
  total_pages = 1;
  current_page = 1;
  page_size = 50;
  next_page = none;
  prev_page = none;
  page = blacklisted_info 2 (peer_info false) ∷ [];
}

get_blacklisted_peers_unlisted_example : All (λ p. p.is_blacklisted ≡ false) first_page.page
unfolding get_blacklisted_peers blacklisted_entries validate_page validate_limit paginate_as_array
    div_ceil build_pagination_urls sort_by_key
get_blacklisted_peers_unlisted_example =
    get_blacklisted_peers_unlisted pagination 1 50 servers first_page refl

check_peer_lost_example :
    lookup 2 (
      check_peer lib [] config 2
        (pinged_peer 2 30 ∷ discovered 9 ((2, 12 ∷ []) ∷ []) ∷ [])
        true
        10
        servers)
    ≡ some (check_peer_connectivity lib config true 10 (peer_info false))
unfolding lookup
check_peer_lost_example =
    check_peer_lost lib [] config 2 (pinged_peer 2 30 ∷ discovered 9 ((2, 12 ∷ []) ∷ []) ∷ []) true
      10 servers (peer_info false) refl
