-- ===== src/Trace/Retention.antt =====
-- internal/trace/trace.go: what sweep removes. An id names its file, whose time of change is given.
use providerapi.Prelude.{String, ◌≡◌, refl, ◌++◌, none, List, [], ◌∷◌, arith, eq_iff, if◌then◌else◌}
use providerapi.Prelude.Int.{ℤ, sub_int}
use providerapi.Dict.{get}
use providerapi.Trace.Store.{Store, lt_int, get_request, list_events, delete_expired}
use providerapi.Trace.Store.Rows.{IsKeyed, is_old, get_request-delete_expired}
use providerapi.Trace.Store.Replay.{execute-IsKeyed, expire}
use providerapi.Trace.Payload.{Files, load_full}

-- How long rows and files are kept, in milliseconds.
pub record Retention : Type 0 where
  pub rows : ℤ
  pub full : ℤ

module _ (changed : String → ℤ) where
  -- the loop over the directory
  unfoldable pub live_files : ℤ → Files → Files
  live_files cutoff [] = []
  live_files cutoff ((id, f) ∷ files) =
      let rest = live_files cutoff files in
      if lt_int (changed id) cutoff then rest else (id, f) ∷ rest

  -- sweep
  unfoldable pub sweep : Retention → ℤ → Store → Files → Store × Files
  unfolding live_files delete_expired sub_int
  sweep keep now st files =
      (delete_expired (sub_int now keep.rows) st, live_files (sub_int now keep.full) files)

  -- RetentionLoop: a sweep at once and at each tick, with the times at which they come
  unfoldable pub retention_loop : Retention → List ℤ → Store → Files → Store × Files
  unfolding sweep
  retention_loop keep [] st files = (st, files)
  retention_loop keep (now ∷ ticks) st files =
      let (st', files') = sweep keep now st files in retention_loop keep ticks st' files'

  pub get-live_files :
      (cutoff : ℤ) (id : String) (files : Files)
      → get id (live_files cutoff files)
        ≡ (if lt_int (changed id) cutoff then none else get id files)
  unfolding get live_files
  get-live_files cutoff id [] = ground arith
  get-live_files cutoff id ((j, f) ∷ files) =
      ground (arith, get-live_files cutoff id files, eq_iff j id)

  load_full-live_files :
      (cutoff : ℤ) (id : String) (files : Files)
      → load_full id (live_files cutoff files)
        ≡ (if lt_int (changed id) cutoff then none else load_full id files)
  unfolding load_full
  load_full-live_files cutoff id files = ground (arith, get-live_files cutoff id files)

  -- What is left of a request.
  pub record Swept (id : String) (keep : Retention) (now : ℤ) (st : Store) (files : Files)
      : Type 0 where
    pub row :
        get_request id (sweep keep now st files).0
        ≡ (if is_old (sub_int now keep.rows) (get_request id st) then none else get_request id st)
    pub events :
        list_events id (sweep keep now st files).0
        ≡ (if is_old (sub_int now keep.rows) (get_request id st) then [] else list_events id st)
    pub full :
        load_full id (sweep keep now st files).1
        ≡ (if lt_int (changed id) (sub_int now keep.full) then none else load_full id files)

  -- Where no two rows have one id, sweep removes a request's row and events exactly when the request started before the
  -- retention of rows, and its full trace exactly when the file was last changed before the retention
  -- of files; everything else of every request stays.
  pub sweep-Swept :
      (id : String) (keep : Retention) (now : ℤ) (st : Store) (files : Files)
      → IsKeyed st.requests
      → Swept id keep now st files
  unfolding sweep
  sweep-Swept id keep now st files keyed =
      let (row, events) = get_request-delete_expired (sub_int now keep.rows) id st keyed in
      record {
        row = row;
        events = events;
        full = load_full-live_files (sub_int now keep.full) id files;
      }

  retention_loop-snoc :
      (keep : Retention) (ticks : List ℤ) (now : ℤ) (st : Store) (files : Files)
      → retention_loop keep (ticks ++ now ∷ []) st files
        ≡ sweep keep now
            (retention_loop keep ticks st files).0
            (retention_loop keep ticks st files).1
  unfolding retention_loop
  retention_loop-snoc keep [] now st files = refl
  retention_loop-snoc keep (t ∷ ticks) now st files =
      retention_loop-snoc keep ticks now (sweep keep t st files).0 (sweep keep t st files).1

  retention_loop-IsKeyed :
      (keep : Retention) (ticks : List ℤ) (st : Store) (files : Files)
      → IsKeyed st.requests
      → IsKeyed (retention_loop keep ticks st files).0.requests
  unfolding retention_loop sweep
  retention_loop-IsKeyed keep [] st files keyed = keyed
  retention_loop-IsKeyed keep (t ∷ ticks) st files keyed =
      retention_loop-IsKeyed keep ticks (sweep keep t st files).0 (sweep keep t st files).1
        (execute-IsKeyed (expire (sub_int t keep.rows)) st keyed)

  -- What is left behind the last tick is what that tick's sweep leaves of what the ticks before it left.
  retention_loop-Swept :
      (id : String) (keep : Retention) (ticks : List ℤ) (now : ℤ) (st : Store) (files : Files)
      → IsKeyed st.requests
      → (retention_loop keep (ticks ++ now ∷ []) st files
          ≡ sweep keep now
              (retention_loop keep ticks st files).0
              (retention_loop keep ticks st files).1)
        × Swept id keep now
            (retention_loop keep ticks st files).0
            (retention_loop keep ticks st files).1
  retention_loop-Swept id keep ticks now st files keyed = (
    retention_loop-snoc keep ticks now st files,
    sweep-Swept id keep now _ _ (retention_loop-IsKeyed keep ticks st files keyed),
  )
