-- ===== src/Monitor.antt =====
-- monitor-client/src: the peers that were discovered, with their latest dials and pings, the list of
-- those that cannot be reached, and the pages of the REST server. Peers and addresses are numbers,
-- whose order is that of their texts; times are numbers, and a ping is its milliseconds.
pub mod Window
pub mod Health
pub mod Pages
pub mod Tasks
mod Examples
use avail_light.Prelude.{
  ℕ, zero, suc, ◌+◌, ◌-◌, ◌*◌, ◌/◌, Bool, true, false, not, Option, some, none, List, [], ◌∷◌, ◌++◌,
  ◌==◌, if◌then◌else◌, leb, ltb, length, take, map, max, min, retain, count_if, Result, ok, err,
}
use avail_light.Prelude.Assoc.{Assoc, lookup, insert}
use avail_light.Prelude.Sets.{contains}
use avail_light.Prelude.Sort.{sort_by_key}
use avail_light.Prelude.Chunks.{skip}

pub record ServerInfo : Type 0 where
  pub multiaddr : List ℕ
  pub last_successful_dial : Option ℕ
  pub last_discovered : Option ℕ
  pub last_ping_rtt : Option ℕ
  pub ping_records : List ℕ
  pub is_blacklisted : Bool
  pub connection_results : List Bool

-- The arithmetic of f64, with the order of scores and thresholds, and `is_global_address`.
pub record MonitorLib : Type 1 where
  pub Float : Type 0
  pub fifty : Float
  -- `(successful as f64 / total as f64) * 100.0`
  pub percentage : ℕ → ℕ → Float
  pub is_below : Float → ℕ → Bool
  pub is_above : Float → ℕ → Bool
  pub mean : List ℕ → ℕ
  pub is_global_address : ℕ → Bool

pub record MonitorConfig : Type 0 where
  pub blacklist_threshold : ℕ
  pub blacklist_remove_threshold : ℕ

pub record PaginationConfig : Type 0 where
  pub min_page : ℕ
  pub min_limit : ℕ
  pub max_limit : ℕ

-- `MAX_PING_RECORDS` and `MAX_CONNECTION_RESULTS`
abbrev pub max_records : ℕ
max_records = 20

module _ {A : Type 0} where
  abbrev pop_front : List A → List A
  pop_front [] = []
  pop_front (x ∷ xs) = xs

  -- `push_back`, and `pop_front` beyond the maximum
  unfoldable pub push_record : A → List A → List A
  push_record x xs =
      let ys = xs ++ x ∷ [] in if ltb max_records (length ys) then pop_front ys else ys

unfoldable pub update_connection_result : Bool → ServerInfo → ServerInfo
unfolding push_record
update_connection_result success info = record info {
  connection_results = push_record success info.connection_results;
}

unfoldable pub update_ping_stats : ℕ → ServerInfo → ServerInfo
unfolding push_record
update_ping_stats rtt info = record info {
  last_ping_rtt = some rtt;
  ping_records = push_record rtt info.ping_records;
}

abbrev no_addresses : List ℕ → Bool
no_addresses [] = true
no_addresses (a ∷ as') = false

module _ (lib : MonitorLib) where
  unfoldable pub calculate_health_score : ServerInfo → lib.Float
  calculate_health_score info =
      let total = length info.connection_results in
      if ltb total 20
      then lib.fifty
      else lib.percentage (count_if (λ b. b) info.connection_results) total

  -- The two tests on the score, one after the other.
  unfoldable pub judge : MonitorConfig → lib.Float → Bool → Bool
  judge config score is_blacklisted =
      let first = if lib.is_below score config.blacklist_threshold then true else is_blacklisted in
      if lib.is_above score config.blacklist_remove_threshold then false else first

  -- `check_peer_connectivity` after the dial has succeeded or not.
  unfoldable pub check_peer_connectivity : MonitorConfig → Bool → ℕ → ServerInfo → ServerInfo
  unfolding update_connection_result calculate_health_score judge
  check_peer_connectivity config success now info =
      let info' = update_connection_result success info in
      let dialed = if success then record info' { last_successful_dial = some now } else info' in
      record dialed {
        is_blacklisted = judge config (calculate_health_score dialed) dialed.is_blacklisted;
      }

  -- A peer that is discovered with some addresses.
  unfoldable pub discover : ℕ → List ℕ → Option ServerInfo → ServerInfo
  discover now addresses known =
      let global = retain lib.is_global_address addresses in
      elim known [
        | some info ↦ record info {
          multiaddr = global;
          last_discovered = some now;
          is_blacklisted = no_addresses global;
        }
        | none ↦ record {
          multiaddr = global;
          last_discovered = some now;
          last_successful_dial = none;
          last_ping_rtt = none;
          ping_records = [];
          is_blacklisted = no_addresses global;
          connection_results = [];
        }
      ]

  unfoldable pub discovered_peers :
      List ℕ → ℕ → List (ℕ × List ℕ) → Assoc ServerInfo → Assoc ServerInfo
  unfolding discover
  discovered_peers bootstraps now [] servers = servers
  discovered_peers bootstraps now ((peer, addresses) ∷ peers) servers =
      if contains bootstraps peer
      then discovered_peers bootstraps now peers servers
      else discovered_peers bootstraps now peers
          (insert peer (discover now addresses (lookup peer servers)) servers)

  unfoldable pub avg_ping : ServerInfo → Option ℕ
  avg_ping info = elim info.ping_records [ [] ↦ none | x ∷ xs ↦ some (lib.mean (x ∷ xs)) ]

unfoldable pub pinged : ℕ → ℕ → Assoc ServerInfo → Assoc ServerInfo
unfolding update_ping_stats
pinged peer rtt servers = elim (lookup peer servers) [
  | none ↦ servers
  | some info ↦ insert peer (update_ping_stats rtt info) servers
]

pub record PeerInfo : Type 0 where
  pub peer_id : ℕ
  pub multiaddr : List ℕ
  pub last_discovered : Option ℕ
  pub last_successful_dial : Option ℕ
  pub is_blacklisted : Bool
  pub average_ping_ms : Option ℕ
  pub last_ping_rtt : Option ℕ

pub record PaginatedResponse (A : Type 0) : Type 0 where
  pub total_items : ℕ
  pub total_pages : ℕ
  pub current_page : ℕ
  pub page_size : ℕ
  pub next_page : Option ℕ
  pub prev_page : Option ℕ
  pub page : List A

pub data PageError : Type 0 where
  division_by_zero underflow : PageError

unfoldable pub validate_page : PaginationConfig → ℕ → ℕ
validate_page c page = max page c.min_page

-- `clamp`, of which the bounds are in order
unfoldable pub validate_limit : PaginationConfig → ℕ → ℕ
validate_limit c limit =
    if ltb limit c.min_limit
    then c.min_limit
    else if ltb c.max_limit limit
    then c.max_limit
    else limit

unfoldable pub div_ceil : ℕ → ℕ → ℕ
div_ceil n m = (n + (m - 1)) / m

-- The numbers of the next and of the previous page, for their links.
unfoldable pub build_pagination_urls : ℕ → ℕ → Option ℕ × Option ℕ
build_pagination_urls page total_pages = (
  if ltb page total_pages then some (page + 1) else none,
  if ltb 1 page then some (page - 1) else none,
)

unfoldable pub paginate_as_array :
    {A : Type 0} → List A → ℕ → ℕ → Result PageError (PaginatedResponse A)
unfolding div_ceil build_pagination_urls
paginate_as_array items page limit =
    if limit == 0
    then err division_by_zero
    else if page == 0
    then err underflow
    else ok (record {
      total_items = length items;
      total_pages = div_ceil (length items) limit;
      current_page = page;
      page_size = limit;
      next_page = (build_pagination_urls page (div_ceil (length items) limit)).0;
      prev_page = (build_pagination_urls page (div_ceil (length items) limit)).1;
      page = take limit (skip ((page - 1) * limit) items);
    })

unfoldable pub blacklisted_info : ℕ → ServerInfo → PeerInfo
blacklisted_info peer info = record {
  peer_id = peer;
  multiaddr = info.multiaddr;
  last_discovered = info.last_discovered;
  last_successful_dial = info.last_successful_dial;
  is_blacklisted = info.is_blacklisted;
  average_ping_ms = none;
  last_ping_rtt = none;
}

-- The filter of the endpoint for blacklisted peers, as it is written.
unfoldable pub blacklisted_entries : Assoc ServerInfo → List PeerInfo
unfolding blacklisted_info
blacklisted_entries [] = []
blacklisted_entries ((peer, info) ∷ servers) =
    let rest = blacklisted_entries servers in
    if not info.is_blacklisted then blacklisted_info peer info ∷ rest else rest

unfoldable pub get_blacklisted_peers :
    PaginationConfig → ℕ → ℕ → Assoc ServerInfo → Result PageError (PaginatedResponse PeerInfo)
unfolding blacklisted_entries validate_page validate_limit paginate_as_array
get_blacklisted_peers c page limit servers =
    paginate_as_array (sort_by_key (λ p. p.peer_id) (blacklisted_entries servers))
      (validate_page c page) (validate_limit c limit)

unfoldable pub server_entries : MonitorLib → Assoc ServerInfo → List PeerInfo
unfolding avg_ping
server_entries lib [] = []
server_entries lib ((peer, info) ∷ servers) =
    record {
      peer_id = peer;
      multiaddr = info.multiaddr;
      last_discovered = info.last_discovered;
      last_successful_dial = info.last_successful_dial;
      is_blacklisted = info.is_blacklisted;
      average_ping_ms = avg_ping lib info;
      last_ping_rtt = info.last_ping_rtt;
    }
    ∷ server_entries lib servers

unfoldable pub get_peers :
    MonitorLib
    → PaginationConfig
    → ℕ
    → ℕ
    → Assoc ServerInfo
    → Result PageError (PaginatedResponse PeerInfo)
unfolding server_entries validate_page validate_limit paginate_as_array
get_peers lib c page limit servers =
    paginate_as_array (sort_by_key (λ p. p.peer_id) (server_entries lib servers))
      (validate_page c page) (validate_limit c limit)

-- `server_list_count` and `blacklist_count`
unfoldable pub get_peer_count : Assoc ServerInfo → ℕ × ℕ
get_peer_count servers = (length servers, count_if (λ p. p.1.is_blacklisted) servers)
