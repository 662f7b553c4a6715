-- ===== src/Trace/Store/Rows.antt =====
-- internal/store/store.go: what the queries find behind the statements that change the tables.
use providerapi.Prelude.{
  String, ◌≡◌, refl, ap, ◌∙◌, Bool, false, Option, none, some, inl, inr, List, [], ◌∷◌, arith, ◌==◌,
  eq_iff, Bool-cases, if◌then◌else◌,
}
use providerapi.Prelude.Int.{ℤ}
use providerapi.Trace.Store.{
  RequestRow, EventRow, Store, upsert_row, upsert_request, find_row, get_request, events_of,
  list_events, lt_int, is_expired, live_events, live_rows, delete_expired,
}

-- No two rows have one id.
abbrev pub IsKeyed : List RequestRow → Type 0
IsKeyed [] = Unit
IsKeyed (r ∷ rows) = (find_row r.id rows ≡ none) × IsKeyed rows

-- The row that is stored, over the one that was there.
abbrev pub stored : RequestRow → Option RequestRow → RequestRow
stored r none = r
stored r (some old) = record r { started_at = old.started_at }

find_row-upsert_row :
    (id : String) (r : RequestRow) (rows : List RequestRow)
    → find_row id (upsert_row r rows)
      ≡ (if r.id == id then some (stored r (find_row r.id rows)) else find_row id rows)
unfolding find_row upsert_row
find_row-upsert_row id r [] = refl
find_row-upsert_row id r (old ∷ rows) =
    ground
      (arith, find_row-upsert_row id r rows, eq_iff old.id r.id, eq_iff old.id id, eq_iff r.id id)

upsert_row-IsKeyed :
    (r : RequestRow) (rows : List RequestRow) → IsKeyed rows → IsKeyed (upsert_row r rows)
unfolding upsert_row find_row
upsert_row-IsKeyed r [] h = (refl, tt)
upsert_row-IsKeyed r (old ∷ rows) (new, h) = elim (Bool-cases (old.id == r.id)) [
  | inl e ↦ rw e (ground (arith, eq_iff old.id r.id), h)
  | inr e ↦ rw e (
    ground (arith, find_row-upsert_row old.id r rows, eq_iff r.id old.id, eq_iff old.id r.id),
    upsert_row-IsKeyed r rows h,
  )
]

-- UpsertRequest keeps at most one row for an id; behind it GetRequest finds the new row under its id, with
-- the start of the row that was there, and under any other id what it found before.
pub get_request-upsert_request :
    (id : String) (r : RequestRow) (s : Store)
    → IsKeyed s.requests
    → IsKeyed (upsert_request r s).requests
      × (get_request id (upsert_request r s)
          ≡ (if r.id == id then some (stored r (get_request r.id s)) else get_request id s))
unfolding get_request upsert_request
get_request-upsert_request id r s h =
    (upsert_row-IsKeyed r s.requests h, find_row-upsert_row id r s.requests)

-- Whether a row that was found is older than the cutoff.
abbrev pub is_old : ℤ → Option RequestRow → Bool
is_old cutoff none = false
is_old cutoff (some r) = lt_int r.started_at cutoff

missing-is_expired :
    (cutoff : ℤ) (id : String) (rows : List RequestRow)
    → find_row id rows ≡ none
    → is_expired cutoff id rows ≡ false
unfolding find_row is_expired
missing-is_expired cutoff id [] h = refl
missing-is_expired cutoff id (r ∷ rows) h = ground (arith, missing-is_expired cutoff id rows)

is_expired-is_old :
    (cutoff : ℤ) (id : String) (rows : List RequestRow)
    → IsKeyed rows
    → is_expired cutoff id rows ≡ is_old cutoff (find_row id rows)
unfolding find_row is_expired
is_expired-is_old cutoff id [] h = refl
is_expired-is_old cutoff id (r ∷ rows) (new, h) =
    ground
      (arith, is_expired-is_old cutoff id rows h, missing-is_expired cutoff id rows, eq_iff r.id id)

pub missing-live_rows :
    (cutoff : ℤ) (id : String) (rows : List RequestRow)
    → find_row id rows ≡ none
    → find_row id (live_rows cutoff rows) ≡ none
unfolding find_row live_rows
missing-live_rows cutoff id [] h = refl
missing-live_rows cutoff id (r ∷ rows) h = ground (arith, missing-live_rows cutoff id rows)

find_row-live_rows :
    (cutoff : ℤ) (id : String) (rows : List RequestRow)
    → IsKeyed rows
    → find_row id (live_rows cutoff rows)
      ≡ (if is_old cutoff (find_row id rows) then none else find_row id rows)
unfolding find_row live_rows
find_row-live_rows cutoff id [] h = refl
find_row-live_rows cutoff id (r ∷ rows) (new, h) =
    ground
      (arith, find_row-live_rows cutoff id rows h, missing-live_rows cutoff id rows, eq_iff r.id id)

events_of-live_events :
    (cutoff : ℤ) (id : String) (rows : List RequestRow) (es : List EventRow)
    → events_of id (live_events cutoff rows es)
      ≡ (if is_expired cutoff id rows then [] else events_of id es)
unfolding events_of live_events
events_of-live_events cutoff id rows [] = ground arith
events_of-live_events cutoff id rows (e ∷ es) =
    ground (arith, events_of-live_events cutoff id rows es, eq_iff e.request_id id)

-- Where no two rows have one id, DeleteExpired removes exactly the requests that started before the
-- cutoff, and with each of them all its events; every other request keeps its row and its events.
pub get_request-delete_expired :
    (cutoff : ℤ) (id : String) (s : Store)
    → IsKeyed s.requests
    → (get_request id (delete_expired cutoff s)
        ≡ (if is_old cutoff (get_request id s) then none else get_request id s))
      × (list_events id (delete_expired cutoff s)
          ≡ (if is_old cutoff (get_request id s) then [] else list_events id s))
unfolding get_request list_events delete_expired
get_request-delete_expired cutoff id s h = (
  find_row-live_rows cutoff id s.requests h,
  events_of-live_events cutoff id s.requests s.events
      ∙ ap (λ b. if b then [] else events_of id s.events)
          (is_expired-is_old cutoff id s.requests h),
)
