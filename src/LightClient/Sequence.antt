-- ===== src/LightClient/Sequence.antt =====
-- The run of core/src/light_client.rs over a sequence of headers.
use avail_light.Prelude.{
  ℕ, ◌≡◌, refl, ap, subst, sym, ◌⊎◌, inl, inr, true, false, err, ◌++◌, Option, some, none, List, [],
  ◌∷◌, ◌==◌, leb, ltb, length, ok, arith, map, Bool-cases, Option-cases, Result-cases,
}
use avail_light.Prelude.Assoc.{lookup, insert, lookup-insert}
use avail_light.Types.Header.{AvailHeader}
use avail_light.Types.Block.{
  BlockRange, init, Kate, Extension, BlockVerified, BlockProcessed, block_num_of, extract_kate,
  try_from,
}
use avail_light.Types.Conversion.{try_from_ok}
use avail_light.Data.Store.{Store, extended}
use avail_light.LightClient.{
  Run, ProcessError, NetworkClient, RpcEvent, connected_host, header_update, or_dimensions,
  conclude, sample, process_block, run,
}
use avail_light.LightClient.Blocks.{process_block-Sampled}
use avail_light.LightClient.Cases.{process_block-Cases}

extended-last : (o : Option BlockRange) (n : ℕ) → (extended o n).last ≡ n
unfolding extended init
extended-last none n = refl
extended-last (some r) n = refl

-- The numbers of the headers received.
abbrev pub header_numbers : List RpcEvent → List ℕ
header_numbers [] = []
header_numbers (connected_host ∷ es) = header_numbers es
header_numbers (header_update h elapsed ∷ es) = h.number ∷ header_numbers es

module _ {F : Type 0} where
  -- Every block with a count of verified cells has a header, and so has the end of the range.
  pub record IsHeaded (db : Store F) : Type 0 where
    pub counted :
        (n c : ℕ)
        → lookup n db.verified_cell_count ≡ some c
        → (h : AvailHeader) × (lookup n db.block_header ≡ some h)
    pub reached :
        (r : BlockRange)
        → db.achieved_confidence ≡ some r
        → (h : AvailHeader) × (lookup r.last db.block_header ≡ some h)

  insert_header :
      (n j : ℕ) (h : AvailHeader) (db db' : Store F)
      → db'.block_header ≡ insert n h db.block_header
      → ((g : AvailHeader) × (lookup j db.block_header ≡ some g)) ⊎ (n ≡ j)
      → (g : AvailHeader) × (lookup j db'.block_header ≡ some g)
  insert_header n j h db db' e c = elim (Bool-cases (n == j)) [
    | inl t ↦ (h, ground (arith, lookup-insert n j h db.block_header))
    | inr t ↦ elim c [
      | inl (g, p) ↦ (g, ground (arith, lookup-insert n j h db.block_header))
      | inr q ↦ (h, ground arith)
    ]
  ]

  count_or_none :
      (n m c k : ℕ) (db db' : Store F)
      → IsHeaded db
      → (db'.verified_cell_count ≡ insert n k db.verified_cell_count)
        ⊎ (db'.verified_cell_count ≡ db.verified_cell_count)
      → lookup m db'.verified_cell_count ≡ some c
      → ((g : AvailHeader) × (lookup m db.block_header ≡ some g)) ⊎ (n ≡ m)
  count_or_none n m c k db db' v (inr e) l = inl (v.counted m c (ground arith))
  count_or_none n m c k db db' v (inl e) l = elim (Bool-cases (n == m)) [
    | inl t ↦ inr (ground arith)
    | inr t ↦ inl (v.counted m c (ground (arith, lookup-insert n m k db.verified_cell_count)))
  ]

  written-IsHeaded :
      (h : AvailHeader) (k : ℕ) (db db' : Store F)
      → IsHeaded db
      → db'.block_header ≡ insert h.number h db.block_header
      → db'.achieved_confidence ≡ some (extended db.achieved_confidence h.number)
      → (db'.verified_cell_count ≡ insert h.number k db.verified_cell_count)
        ⊎ (db'.verified_cell_count ≡ db.verified_cell_count)
      → IsHeaded db'
  written-IsHeaded h k db db' v e r c = record {
    counted =
        λ m d l. insert_header h.number m h db db' e (count_or_none h.number m d k db db' v c l);
    reached = λ q l.
        insert_header h.number q.last h db db' e
          (inr (ground (arith, extended-last db.achieved_confidence h.number)));
  }

module _ {kate : Kate} where
  process_block-IsHeaded :
      (client : NetworkClient kate) (confidence : kate.Float) (header : AvailHeader)
      (db : Store kate.Float)
      → IsHeaded db
      → IsHeaded (process_block client confidence header db).db
  process_block-IsHeaded client confidence header db v =
      elim (process_block-Cases client confidence header db) [
        | inl (b, e) ↦
            let w = process_block-Sampled client confidence header db b e in
            written-IsHeaded header (length w.fetched) db
              (process_block client confidence header db).db v w.stored w.achieved (inl w.counted)
        | inr (inl w) ↦
            written-IsHeaded header 0 db (process_block client confidence header db).db v w.headers
              w.range (inr w.counts)
        | inr (inr (_, u)) ↦ record {
          counted = λ n c e. rw u.headers (v.counted n c (ground (arith, u.counts)));
          reached = λ r e. rw u.headers (v.reached r (ground (arith, u.range)));
        }
      ]

  -- The run keeps: every block with a count of verified cells, and the last block of the achieved
  -- range, has its header in the database.
  pub run-IsHeaded :
      (client : NetworkClient kate) (confidence : kate.Float) (delay : Option ℕ)
      (es : List RpcEvent) (db : Store kate.Float)
      → IsHeaded db
      → IsHeaded (run client confidence delay es db).db
  unfolding run
  run-IsHeaded client confidence delay [] db v = v
  run-IsHeaded client confidence delay (connected_host ∷ es) db v =
      run-IsHeaded client confidence delay es db v
  run-IsHeaded client confidence delay (header_update header elapsed ∷ es) db v =
      elim (Result-cases (process_block client confidence header db).result) [
        | inr (x, e) ↦ rw (e, run) (process_block-IsHeaded client confidence header db v)
        | inl (p, e) ↦
            rw (e, run)
              (run-IsHeaded client confidence delay es
                (process_block client confidence header db).db
                (process_block-IsHeaded client confidence header db v))
      ]

  sample-block_num :
      (client : NetworkClient kate) (header : AvailHeader) (commitment : List ℕ)
      (block : BlockVerified kate) (extension : Extension kate) (db : Store kate.Float)
      (p : BlockProcessed kate)
      → block.block_num ≡ header.number
      → (sample client header commitment block extension db).result ≡ ok p
      → block_num_of p ≡ header.number
  unfolding sample conclude block_num_of
  sample-block_num client header commitment block extension db p v h =
      elim (Option-cases (kate.from_slice commitment)) [
        | inl e ↦ ground arith
        | inr (cs, e) ↦
            elim (Result-cases (
              client.fetch_verified header.number (kate.header_hash header) extension.dimensions cs
                (client.random_cells
                  (or_dimensions block.target_grid_dimensions extension.dimensions)))) [
                    | inr (x, f) ↦ ground arith
                    | inl ((fetched, unfetched, stats), f) ↦
                        elim (Bool-cases (
                          ltb (length fetched) (
                            length (
                              client.random_cells (
                                or_dimensions block.target_grid_dimensions
                                  extension.dimensions))))) [
                                    | inl l ↦ ground arith
                                    | inr l ↦ ground arith
                                  ]
                  ]
      ]

  process_block-block_num :
      (client : NetworkClient kate) (confidence : kate.Float) (header : AvailHeader)
      (db : Store kate.Float) (p : BlockProcessed kate)
      → (process_block client confidence header db).result ≡ ok p
      → block_num_of p ≡ header.number
  unfolding process_block block_num_of
  process_block-block_num client confidence header db p h =
      elim (Option-cases (extract_kate header.extension)) [
        | inl e ↦ ground arith
        | inr ((_, _, _, commitment), e) ↦
            elim (Result-cases (try_from kate header (some confidence))) [
              | inr (x, f) ↦ ground arith
              | inl (block, f) ↦ elim (Option-cases block.extension) [
                | inl g ↦ ground arith
                | inr (extension, g) ↦ elim (Bool-cases (leb (kate.cols extension.dimensions) 2)) [
                  | inl l ↦ ground arith
                  | inr l ↦ ground (
                    arith,
                    sample-block_num client header commitment block extension db p
                        (try_from_ok kate header (some confidence) block extension f g).0,
                  )
                ]
              ]
            ]
      ]

  -- The loop has stopped at a header whose processing failed; the blocks given to the channel are those of
  -- the headers before it.
  pub record StoppedAt (client : NetworkClient kate) (confidence : kate.Float) (delay : Option ℕ)
      (es : List RpcEvent) (db : Store kate.Float) (r : Run kate) : Type 0 where
    pub before : List RpcEvent
    pub header : AvailHeader
    pub elapsed : ℕ
    pub after : List RpcEvent
    pub error : ProcessError
    pub split : es ≡ before ++ header_update header elapsed ∷ after
    pub attempts : map block_num_of r.attempts ≡ header_numbers before
    pub failed :
        (process_block client confidence header (run client confidence delay before db).db).result
        ≡ err error
    pub stopped : r.stopped ≡ true

  -- Either a block is given to the channel, which may have no receiver, for each header received, in
  -- their order, and the loop has not stopped; or the loop has stopped at the first header whose
  -- processing failed, and the blocks are those of the headers before it.
  pub run_in_order :
      (client : NetworkClient kate) (confidence : kate.Float) (delay : Option ℕ)
      (es : List RpcEvent) (db : Store kate.Float)
      → ((map block_num_of (run client confidence delay es db).attempts ≡ header_numbers es)
          × ((run client confidence delay es db).stopped ≡ false))
        ⊎ StoppedAt client confidence delay es db (run client confidence delay es db)
  unfolding run block_num_of
  run_in_order client confidence delay [] db = inl (refl, refl)
  run_in_order client confidence delay (connected_host ∷ es) db =
      elim (run_in_order client confidence delay es db) [
        | inl w ↦ inl w
        | inr w ↦ inr (record {
          before = connected_host ∷ w.before;
          header = w.header;
          elapsed = w.elapsed;
          after = w.after;
          error = w.error;
          split = ap (λ z. connected_host ∷ z) w.split;
          attempts = w.attempts;
          failed = w.failed;
          stopped = w.stopped;
        })
      ]
  run_in_order client confidence delay (header_update header elapsed ∷ es) db =
      elim (Result-cases (process_block client confidence header db).result) [
        | inr (x, e) ↦ inr (record {
          before = [];
          header = header;
          elapsed = elapsed;
          after = es;
          error = x;
          split = refl;
          attempts = ground arith;
          failed = e;
          stopped = ground arith;
        })
        | inl (p, e) ↦
            let n = process_block-block_num client confidence header db p e in
            let db' = (process_block client confidence header db).db in
            let opened : (fs : List RpcEvent)
                → (run client confidence delay (header_update header elapsed ∷ fs) db).db
                  ≡ (run client confidence delay fs db').db =
              λ fs. ground arith in
            elim (run_in_order client confidence delay es db') [
              | inl w ↦ inl (ground (arith, n), ground arith)
              | inr w ↦ inr (record {
                before = header_update header elapsed ∷ w.before;
                header = w.header;
                elapsed = w.elapsed;
                after = w.after;
                error = w.error;
                split = ap (λ z. header_update header elapsed ∷ z) w.split;
                attempts = ground (arith, n, w.attempts);
                failed =
                    subst (λ z. (process_block client confidence w.header z).result ≡ err w.error)
                      (sym (opened w.before)) w.failed;
                stopped = ground (arith, w.stopped);
              })
            ]
      ]
