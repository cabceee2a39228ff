-- ===== src/SyncFinality/Synced.antt =====
-- What the `sync` of core/src/sync_finality.rs leaves behind when it returns without an error.
use avail_light.Prelude.{
  ℕ, ◌+◌, ◌-◌, ◌%◌, ◌≡◌, refl, subst, sym, inl, inr, true, some, List, length, ok, arith,
  Option-cases, Result-cases,
}
use avail_light.Types.Header.{H256, AvailHeader}
use avail_light.Data.Store.{Store}
use avail_light.Finality.{ValidatorSet}
use avail_light.SyncFinality.{FinalityClient}
use avail_light.SyncFinality.Chain.{IsChain, follow_chain-IsChain}
use avail_light.SyncFinality.Start.{GenesisClient, start_of, follow_stored, finish_sync, sync}
use avail_light.SyncFinality.Stored.{AreStored, follow_stored-Stores}

module _ {F : Type 0} (client : FinalityClient) where
  -- The headers from the first one to the last one form a chain from the validators at the first one,
  -- they are stored under their numbers, and the flag is set.
  abbrev pub IsSynced : ℕ → ℕ → H256 → ValidatorSet → Store F → Type 0
  IsSynced last n prev_hash valset db =
      (hs : List AvailHeader) × IsChain client prev_hash valset hs
      × (n + length hs ≡ last + 1)
      × AreStored n hs db
      × (db.is_finality_synced ≡ some true)

  finish_sync-IsSynced :
      (last n : ℕ) (prev_hash : H256) (valset : ValidatorSet) (db : Store F)
      → (finish_sync client last n prev_hash valset db).0 ≡ ok tt
      → IsSynced last n prev_hash valset (finish_sync client last n prev_hash valset db).1
  unfolding finish_sync
  finish_sync-IsSynced last n prev v db h =
      let r = follow_stored client (last + 1 - n) last n prev v db in
      elim (Result-cases r.0) [
        | inr (x, e) ↦ ground arith
        | inl (u, e) ↦
            let (hs, c, s) =
              follow_stored-Stores client (last + 1 - n) last n prev v db (ground arith) in
            let (chain, l) = follow_chain-IsChain client (last + 1 - n) last n prev v hs c in
            let eq : finish_sync client last n prev v db
                ≡ (ok tt, record r.1 { is_finality_synced = some true }) =
              ground arith in
            subst (λ z. IsSynced last n prev v z.1) (sym eq) (hs, chain, l, s, refl)
      ]

  -- When `sync` returns without an error, the start is known from the checkpoint or the genesis, the
  -- headers from there to the given header's number form a chain by their parent hashes in which
  -- the validators in charge have signed a justification at each change, each is stored under its
  -- number, and the flag says that the finality is synced.
  pub sync-IsSynced :
      (genesis : GenesisClient) (from_header : AvailHeader) (db : Store F)
      → (sync client genesis from_header db).0 ≡ ok tt
      → (n : ℕ) × (valset : ValidatorSet) × (prev_hash : H256) × (start_of genesis
            db.finality_sync_checkpoint
          ≡ ok (n, valset))
        × (client.get_block_hash ((n + 4294967295) % 4294967296) ≡ some prev_hash)
        × IsSynced from_header.number n prev_hash valset (sync client genesis from_header db).1
  unfolding sync
  sync-IsSynced genesis from_header db h = elim (Option-cases genesis.genesis_hash) [
    | inl e ↦ ground arith
    | inr (g, e) ↦ elim (Result-cases (start_of genesis db.finality_sync_checkpoint)) [
      | inr (x, f) ↦ ground arith
      | inl ((n, v), f) ↦
          elim (Option-cases (client.get_block_hash ((n + 4294967295) % 4294967296))) [
            | inl p ↦ ground arith
            | inr (prev, p) ↦
                let eq : sync client genesis from_header db
                    ≡ finish_sync client from_header.number n prev v db =
                  ground arith in
                (
                  n,
                  v,
                  prev,
                  f,
                  p,
                  subst (λ z. IsSynced from_header.number n prev v z.1) (sym eq)
                      (finish_sync-IsSynced from_header.number n prev v db (ground arith)),
                )
          ]
    ]
  ]
