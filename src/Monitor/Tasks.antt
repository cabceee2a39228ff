-- ===== src/Monitor/Tasks.antt =====
-- A check of monitor-client/src/peer_monitor.rs takes a copy of the peer's entry, dials, and writes the
-- copy back; other events are handled in between.
use avail_light.Prelude.{
  ℕ, ◌≡◌, inl, inr, Bool, some, none, List, [], ◌∷◌, ◌==◌, arith, Bool-cases, Option-cases,
}
use avail_light.Prelude.Assoc.{Assoc, lookup, insert, lookup-insert}
use avail_light.Prelude.Sets.{contains}
use avail_light.Monitor.{
  ServerInfo, MonitorLib, MonitorConfig, check_peer_connectivity, discover, discovered_peers,
  pinged, update_ping_stats,
}

-- What handle_events does, at a time.
pub data MonitorEvent : Type 0 where
  discovered : ℕ → List (ℕ × List ℕ) → MonitorEvent
  pinged_peer : ℕ → ℕ → MonitorEvent

module _ (lib : MonitorLib) (bootstraps : List ℕ) where
  unfoldable pub handle_events : List MonitorEvent → Assoc ServerInfo → Assoc ServerInfo
  unfolding discovered_peers pinged
  handle_events [] servers = servers
  handle_events (discovered now peers ∷ es) servers =
      handle_events es (discovered_peers lib bootstraps now peers servers)
  handle_events (pinged_peer peer rtt ∷ es) servers = handle_events es (pinged peer rtt servers)

  -- One task of `process_peers`, with the events handled while it dials.
  unfoldable pub check_peer :
      MonitorConfig → ℕ → List MonitorEvent → Bool → ℕ → Assoc ServerInfo → Assoc ServerInfo
  unfolding handle_events
  check_peer config peer es success now servers =
      let others = handle_events es servers in
      elim (lookup peer servers) [
        | none ↦ others
        | some copy ↦ elim (lookup peer others) [
          | none ↦ others
          | some _ ↦ insert peer (check_peer_connectivity lib config success now copy) others
        ]
      ]

  abbrev Known : ℕ → Assoc ServerInfo → Type 0
  Known peer servers = (info : ServerInfo) × (lookup peer servers ≡ some info)

  insert-Known :
      (k peer : ℕ) (i : ServerInfo) (servers : Assoc ServerInfo)
      → Known peer servers
      → Known peer (insert k i servers)
  insert-Known k peer i servers (j, e) = elim (Bool-cases (k == peer)) [
    | inl b ↦ (i, ground (arith, lookup-insert k peer i servers))
    | inr b ↦ (j, ground (arith, lookup-insert k peer i servers))
  ]

  discovered_peers-Known :
      (now peer : ℕ) (peers : List (ℕ × List ℕ)) (servers : Assoc ServerInfo)
      → Known peer servers
      → Known peer (discovered_peers lib bootstraps now peers servers)
  unfolding discovered_peers
  discovered_peers-Known now peer [] servers h = h
  discovered_peers-Known now peer ((k, addresses) ∷ peers) servers h =
      elim (Bool-cases (contains bootstraps k)) [
        | inl b ↦ rw b (discovered_peers-Known now peer peers servers h)
        | inr b ↦ rw b (
            discovered_peers-Known now peer peers
              (insert k (discover lib now addresses (lookup k servers)) servers)
              (insert-Known k peer (discover lib now addresses (lookup k servers)) servers h))
      ]

  pinged-Known :
      (k rtt peer : ℕ) (servers : Assoc ServerInfo)
      → Known peer servers
      → Known peer (pinged k rtt servers)
  unfolding pinged
  pinged-Known k rtt peer servers h = elim (Option-cases (lookup k servers)) [
    | inl e ↦ rw (e, pinged) h
    | inr (i, e) ↦ rw (e, pinged) (insert-Known k peer (update_ping_stats rtt i) servers h)
  ]

  handle_events-Known :
      (peer : ℕ) (es : List MonitorEvent) (servers : Assoc ServerInfo)
      → Known peer servers
      → Known peer (handle_events es servers)
  unfolding handle_events
  handle_events-Known peer [] servers h = h
  handle_events-Known peer (discovered now peers ∷ es) servers h =
      handle_events-Known peer es (discovered_peers lib bootstraps now peers servers)
        (discovered_peers-Known now peer peers servers h)
  handle_events-Known peer (pinged_peer k rtt ∷ es) servers h =
      handle_events-Known peer es (pinged k rtt servers) (pinged-Known k rtt peer servers h)

  -- Whatever is handled while a peer is dialed, its entry after the check is the check of the entry
  -- before it: pings and discoveries of the peer in between are lost.
  pub check_peer_lost :
      (config : MonitorConfig) (peer : ℕ) (es : List MonitorEvent) (success : Bool) (now : ℕ)
      (servers : Assoc ServerInfo) (info : ServerInfo)
      → lookup peer servers ≡ some info
      → lookup peer (check_peer config peer es success now servers)
        ≡ some (check_peer_connectivity lib config success now info)
  unfolding check_peer
  check_peer_lost config peer es success now servers info e =
      let (j, f) = handle_events-Known peer es servers (info, e) in
      ground (
        arith,
        lookup-insert peer peer (check_peer_connectivity lib config success now info)
            (handle_events es servers),
      )
