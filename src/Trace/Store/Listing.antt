-- ===== src/Trace/Store/Listing.antt =====
-- internal/store/store.go: what ListRequests gives.
use providerapi.Prelude.{
  ℕ, zero, suc, refl, [], ◌∷◌, All, ◌≤◌, ◌≡◌, ◌⊎◌, false, true, List, [], ◌++◌, length, drop,
  take-append-drop, length-take, length-take_full, arith,
}
use mathlib.Core.List.{Perm}
use providerapi.Prelude.Sort.{sort, IsSorted, sort-perm, sort-IsSorted}
use providerapi.Prelude.Int.{ℤ, pos, negsuc}
use providerapi.Trace.Store.{RequestRow, Store, lt_int, newer, limit_of, list_requests}

lt_int_asym : (a b : ℤ) → lt_int a b ≡ true → lt_int b a ≡ false
lt_int_asym (pos a) (pos b) h = ground arith
lt_int_asym (pos a) (negsuc b) h = ground arith
lt_int_asym (negsuc a) (pos b) h = ground arith
lt_int_asym (negsuc a) (negsuc b) h = ground arith

not_lt_int_trans : (a b c : ℤ) → lt_int a b ≡ false → lt_int b c ≡ false → lt_int a c ≡ false
not_lt_int_trans (pos a) (pos b) (pos c) h k = ground arith
not_lt_int_trans (pos a) (pos b) (negsuc c) h k = ground arith
not_lt_int_trans (pos a) (negsuc b) (pos c) h k = ground arith
not_lt_int_trans (pos a) (negsuc b) (negsuc c) h k = ground arith
not_lt_int_trans (negsuc a) (pos b) (pos c) h k = ground arith
not_lt_int_trans (negsuc a) (pos b) (negsuc c) h k = ground arith
not_lt_int_trans (negsuc a) (negsuc b) (pos c) h k = ground arith
not_lt_int_trans (negsuc a) (negsuc b) (negsuc c) h k = ground arith

-- No row stands in front of one that was started later.
abbrev pub IsNewestFirst : List RequestRow → Type 0
IsNewestFirst [] = Unit
IsNewestFirst (r ∷ rows) =
    All (λ x. lt_int r.started_at x.started_at ≡ false) rows × IsNewestFirst rows

-- How many rows are asked for.
abbrev pub asked : ℤ → ℕ
asked (pos (suc n)) = suc n
asked _ = 50

-- The newest rows of a table, up to a limit.
pub record Newest (limit : ℕ) (rows listed : List RequestRow) : Type 0 where
  pub rest : List RequestRow
  pub together : Perm (listed ++ rest) rows
  pub in_order : IsNewestFirst (listed ++ rest)
  pub at_most : length listed ≤ limit
  pub full : (rest ≡ []) ⊎ (length listed ≡ limit)

asked-limit_of : (limit : ℤ) → limit_of limit ≡ asked limit
asked-limit_of (pos zero) = refl
asked-limit_of (pos (suc n)) = refl
asked-limit_of (negsuc n) = refl

IsSorted-IsNewestFirst : (rows : List RequestRow) → IsSorted newer rows → IsNewestFirst rows
IsSorted-IsNewestFirst [] h = tt
IsSorted-IsNewestFirst (r ∷ rows) (first, h) = (first, IsSorted-IsNewestFirst rows h)

sorted-IsNewestFirst : (rows : List RequestRow) → IsNewestFirst (sort newer rows)
sorted-IsNewestFirst rows = IsSorted-IsNewestFirst (sort newer rows) (
    sort-IsSorted newer (λ x y e. lt_int_asym y.started_at x.started_at e)
      (λ x y z e f. not_lt_int_trans x.started_at y.started_at z.started_at e f) rows)

-- ListRequests gives as many rows as are asked for, or 50 where that is not positive, or all where there are
-- fewer: the listed rows and some rest are the table's rows in another order, in which no row stands in front
-- of one that was started later, and the rest is empty unless the limit is reached.
pub list_requests-Newest :
    (limit : ℤ) (s : Store) → Newest (asked limit) s.requests (list_requests limit s)
unfolding list_requests
list_requests-Newest limit s =
    let sorted = sort newer s.requests in
    let n = limit_of limit in
    record {
      rest = drop n sorted;
      together = rw (take-append-drop n sorted) (sort-perm newer s.requests);
      in_order = rw (take-append-drop n sorted) (sorted-IsNewestFirst s.requests);
      at_most = rw (← asked-limit_of limit) (length-take n sorted);
      full = rw (← asked-limit_of limit) (length-take_full n sorted);
    }
