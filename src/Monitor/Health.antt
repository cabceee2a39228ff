-- ===== src/Monitor/Health.antt =====
-- The records of a peer in monitor-client/src against its whole history.
use avail_light.Prelude.{
  ℕ, zero, suc, ◌≡◌, refl, ap, ◌∙◌, inl, inr, ◌⊎◌, Bool, true, false, none, some, get_elem?, List,
  [], ◌∷◌, ◌++◌, if◌then◌else◌, ltb, arith, length, retain, count_if,
}
use avail_light.Monitor.Window.{latest, push_record-latest, length-latest}
use avail_light.Monitor.{
  ServerInfo, MonitorLib, MonitorConfig, max_records, push_record, update_connection_result,
  update_ping_stats, no_addresses, calculate_health_score, judge, check_peer_connectivity, discover,
}

-- What happens to a peer: a check starts with a copy of its entry, a check finishes its dial and writes
-- its copy back, a ping, or that the peer is discovered again. Checks overlap, and the others come in
-- between.
pub data Action : Type 0 where
  started : Action
  finished : ℕ → Bool → ℕ → Action
  ping : ℕ → Action
  found : ℕ → List ℕ → Action

-- The whole history of a peer, and whether it is on the list.
pub record Peer : Type 0 where
  pub dials : List Bool
  pub pings : List ℕ
  pub listed : Bool

-- The entry of a peer, or its history, with the copies that the running checks have taken.
pub record Shared (T : Type 0) : Type 0 where
  pub entry : T
  pub copies : List T

module _ {A : Type 0} where
  unfoldable pub drop_at : ℕ → List A → List A
  drop_at i [] = []
  drop_at zero (x ∷ xs) = xs
  drop_at (suc i) (x ∷ xs) = x ∷ drop_at i xs

  -- A check that finishes, by what its dial makes of the copy.
  unfoldable pub write_back : ℕ → (A → A) → Shared A → Shared A
  unfolding drop_at
  write_back i f s = elim (get_elem? s.copies i) [
    | none ↦ s
    | some copy ↦ record { entry = f copy; copies = drop_at i s.copies }
  ]

module _ (lib : MonitorLib) (config : MonitorConfig) where
  -- The code's step.
  unfoldable pub act : Action → Shared ServerInfo → Shared ServerInfo
  unfolding check_peer_connectivity update_ping_stats discover write_back
  act started s = record s { copies = s.copies ++ s.entry ∷ [] }
  act (finished i success now) s = write_back i (check_peer_connectivity lib config success now) s
  act (ping rtt) s = record s { entry = update_ping_stats rtt s.entry }
  act (found now addresses) s = record s { entry = discover lib now addresses (some s.entry) }

  unfoldable pub acts : List Action → Shared ServerInfo → Shared ServerInfo
  unfolding act
  acts [] s = s
  acts (a ∷ as') s = acts as' (act a s)

  -- The score of a history: of its latest dials, once there are enough.
  unfoldable pub score : List Bool → lib.Float
  score dials =
      if ltb (length dials) max_records
      then lib.fifty
      else lib.percentage (count_if (λ b. b) (latest dials)) max_records

  unfoldable pub dial : Bool → Peer → Peer
  unfolding judge score
  dial success p = record p {
    dials = p.dials ++ success ∷ [];
    listed = judge lib config (score (p.dials ++ success ∷ [])) p.listed;
  }

  -- The step on the history.
  unfoldable pub extend : Action → Shared Peer → Shared Peer
  unfolding dial write_back
  extend started s = record s { copies = s.copies ++ s.entry ∷ [] }
  extend (finished i success now) s = write_back i (dial success) s
  extend (ping rtt) s = record s { entry = record s.entry { pings = s.entry.pings ++ rtt ∷ [] } }
  extend (found now addresses) s = record s {
    entry = record s.entry { listed = no_addresses (retain lib.is_global_address addresses) };
  }

  unfoldable pub extends : List Action → Shared Peer → Shared Peer
  unfolding extend
  extends [] s = s
  extends (a ∷ as') s = extends as' (extend a s)

-- The records are the latest ones of the history.
pub record Represents (p : Peer) (info : ServerInfo) : Type 0 where
  pub dials : info.connection_results ≡ latest p.dials
  pub pings : info.ping_records ≡ latest p.pings
  pub listed : info.is_blacklisted ≡ p.listed

unfoldable pub AllRepresent : List Peer → List ServerInfo → Type 0
AllRepresent [] [] = Unit {0}
AllRepresent [] (i ∷ is) = ⊥
AllRepresent (p ∷ ps) [] = ⊥
AllRepresent (p ∷ ps) (i ∷ is) = Represents p i × AllRepresent ps is

pub record SharedRepresents (h : Shared Peer) (s : Shared ServerInfo) : Type 0 where
  pub entry : Represents h.entry s.entry
  pub copies : AllRepresent h.copies s.copies

AllRepresent-append :
    (ps : List Peer) (is : List ServerInfo) (p : Peer) (i : ServerInfo)
    → AllRepresent ps is
    → Represents p i
    → AllRepresent (ps ++ p ∷ []) (is ++ i ∷ [])
unfolding AllRepresent
AllRepresent-append [] [] p i a r = (r, tt)
AllRepresent-append [] (j ∷ is) p i a r = absurd a
AllRepresent-append (q ∷ ps) [] p i a r = absurd a
AllRepresent-append (q ∷ ps) (j ∷ is) p i a r = (a.0, AllRepresent-append ps is p i a.1 r)

AllRepresent-drop_at :
    (k : ℕ) (ps : List Peer) (is : List ServerInfo)
    → AllRepresent ps is
    → AllRepresent (drop_at k ps) (drop_at k is)
unfolding AllRepresent drop_at
AllRepresent-drop_at k [] [] a = tt
AllRepresent-drop_at k [] (j ∷ is) a = absurd a
AllRepresent-drop_at k (q ∷ ps) [] a = absurd a
AllRepresent-drop_at zero (q ∷ ps) (j ∷ is) a = a.1
AllRepresent-drop_at (suc k) (q ∷ ps) (j ∷ is) a = (a.0, AllRepresent-drop_at k ps is a.1)

copy_at :
    (k : ℕ) (ps : List Peer) (is : List ServerInfo)
    → AllRepresent ps is
    → ((get_elem? ps k ≡ none) × (get_elem? is k ≡ none))
      ⊎ ((p : Peer) × (i : ServerInfo) × (get_elem? ps k ≡ some p)
          × (get_elem? is k ≡ some i)
          × Represents p i)
unfolding AllRepresent
copy_at k [] [] a = inl (refl, refl)
copy_at k [] (j ∷ is) a = absurd a
copy_at k (q ∷ ps) [] a = absurd a
copy_at zero (q ∷ ps) (j ∷ is) a = inr (q, j, refl, refl, a.0)
copy_at (suc k) (q ∷ ps) (j ∷ is) a = copy_at k ps is a.1

write_back-Represents :
    (k : ℕ) (f : Peer → Peer) (g : ServerInfo → ServerInfo) (h : Shared Peer)
    (s : Shared ServerInfo)
    → ((p : Peer) (i : ServerInfo) → Represents p i → Represents (f p) (g i))
    → SharedRepresents h s
    → SharedRepresents (write_back k f h) (write_back k g s)
unfolding write_back
write_back-Represents k f g h s w v = elim (copy_at k h.copies s.copies v.copies) [
  | inl (a, b) ↦ rw (a, b, write_back) v
  | inr (p, i, a, b, r) ↦
      rw (a, b, write_back)
        (record { entry = w p i r; copies = AllRepresent-drop_at k h.copies s.copies v.copies })
]

module _ (lib : MonitorLib) (config : MonitorConfig) where
  calculate_health_score-score :
      (h : List Bool) (info : ServerInfo)
      → info.connection_results ≡ latest h
      → calculate_health_score lib info ≡ score lib config h
  unfolding calculate_health_score score
  calculate_health_score-score h info e = ground (arith, length-latest h)

  check_kept :
      (success : Bool) (now : ℕ) (info : ServerInfo) {h : List Bool}
      → (update_connection_result success info).connection_results ≡ h
      → (check_peer_connectivity lib config success now info).connection_results ≡ h
  unfolding check_peer_connectivity
  check_kept true now info e = e
  check_kept false now info e = e

  check_pings :
      (success : Bool) (now : ℕ) (info : ServerInfo) {h : List ℕ}
      → info.ping_records ≡ h
      → (check_peer_connectivity lib config success now info).ping_records ≡ h
  unfolding check_peer_connectivity update_connection_result
  check_pings true now info e = e
  check_pings false now info e = e

  check_listed :
      (success : Bool) (now : ℕ) (info : ServerInfo) (h : List Bool)
      → (update_connection_result success info).connection_results ≡ latest h
      → (check_peer_connectivity lib config success now info).is_blacklisted
        ≡ judge lib config (score lib config h) info.is_blacklisted
  unfolding check_peer_connectivity update_connection_result
  check_listed true now info h e =
      ap (λ x. judge lib config x info.is_blacklisted)
        (calculate_health_score-score h
          (record (update_connection_result true info) { last_successful_dial = some now }) e)
  check_listed false now info h e =
      ap (λ x. judge lib config x info.is_blacklisted)
        (calculate_health_score-score h (update_connection_result false info) e)

  dial-Represents :
      (success : Bool) (now : ℕ) (p : Peer) (info : ServerInfo)
      → Represents p info
      → Represents (dial lib config success p) (check_peer_connectivity lib config success now info)
  unfolding dial update_connection_result
  dial-Represents success now p info v =
      let info' = update_connection_result success info in
      let e : info'.connection_results ≡ latest (p.dials ++ success ∷ []) =
        ap (push_record success) v.dials ∙ push_record-latest success p.dials in
      record {
        dials = check_kept success now info e;
        pings = check_pings success now info v.pings;
        listed =
            check_listed success now info (p.dials ++ success ∷ []) e
            ∙ ap (judge lib config (score lib config (p.dials ++ success ∷ []))) v.listed;
      }

  act-Represents :
      (a : Action) (h : Shared Peer) (s : Shared ServerInfo)
      → SharedRepresents h s
      → SharedRepresents (extend lib config a h) (act lib config a s)
  unfolding act extend update_ping_stats discover
  act-Represents started h s v = record {
    entry = v.entry;
    copies = AllRepresent-append h.copies s.copies h.entry s.entry v.copies v.entry;
  }
  act-Represents (finished k success now) h s v =
      write_back-Represents k (dial lib config success)
        (check_peer_connectivity lib config success now) h s (dial-Represents success now) v
  act-Represents (ping rtt) h s v = record {
    entry = record {
      dials = v.entry.dials;
      pings = ap (push_record rtt) v.entry.pings ∙ push_record-latest rtt h.entry.pings;
      listed = v.entry.listed;
    };
    copies = v.copies;
  }
  act-Represents (found now addresses) h s v = record {
    entry = record { dials = v.entry.dials; pings = v.entry.pings; listed = refl };
    copies = v.copies;
  }

  -- The bounded records of a peer are the latest ones of the unbounded history that the same events give,
  -- and the peer is on the list exactly if that history says so. If this holds of the entry and of the
  -- copies of the running checks, it does so after any events, with checks that overlap and write back
  -- copies that are out of date: what such a check drops, it drops from the history too, and the bound
  -- of the records loses nothing that the score depends on.
  pub acts-SharedRepresents :
      (as' : List Action) (h : Shared Peer) (s : Shared ServerInfo)
      → SharedRepresents h s
      → SharedRepresents (extends lib config as' h) (acts lib config as' s)
  unfolding acts extends
  acts-SharedRepresents [] h s v = v
  acts-SharedRepresents (a ∷ as') h s v =
      acts-SharedRepresents as' (extend lib config a h) (act lib config a s)
        (act-Represents a h s v)
