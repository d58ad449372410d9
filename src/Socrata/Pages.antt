-- ===== src/Socrata/Pages.antt =====
-- `fetch_all_paginated`: the pages of a table make up the table.
use urban_ops_intelligence_p.Prelude.{
  ℕ, zero, suc, ◌+◌, ◌*◌, ◌≤◌, ◌<◌, ◌≡◌, refl, sym, ap, ◌∙◌, inl, inr, true, false, List, [], ◌∷◌,
  none, ◌++◌, Option, some, arith, ltb, ltb→lt, length, take, drop, is_empty, Bool-cases, Text,
  Exception, if◌then◌else◌, Result, ok, err, stop, raises, yield_from, yield_from-append,
  list_of-yield_from, take-append-drop, length-drop, drop-of_short, drop-drop,
}
use urban_ops_intelligence_p.Calendar.{Date}
use urban_ops_intelligence_p.Records.{Record}
use urban_ops_intelligence_p.Socrata.{
  Session, Query, page_loop, fetch_page, fetch_all, fetch_all_paginated,
}
use urban_ops_intelligence_p.Socrata.Retry.{first_rows, request_with_retry_lem}

-- Every page of the table can be had.
abbrev pub Serves : (ℕ → Result (List Record)) → ℕ → List Record → Type 0
Serves page size table = (offset : ℕ) → page offset ≡ ok (take size (drop offset table))

no_rows : (size : ℕ) (rows : List Record) → 0 < size → is_empty (take size rows) ≡ true → rows ≡ []
no_rows zero rows h e = elim h [ ]
no_rows (suc n) [] h e = refl
no_rows (suc n) (r ∷ rows) h e = cc

page_loop_step :
    (page : ℕ → Result (List Record)) (size fuel offset : ℕ) (rs : List Record)
    → page offset ≡ ok rs
    → page_loop page size (suc fuel) offset ≡ (
        if is_empty rs
        then stop
        else yield_from rs
            (if ltb (length rs) size then stop else page_loop page size fuel (offset + size)))
unfolding page_loop
page_loop_step page size fuel offset rs e = rw (e, page_loop)

page_loop_failure :
    (page : ℕ → Result (List Record)) (size fuel offset : ℕ) (x : Exception)
    → page offset ≡ err x
    → page_loop page size (suc fuel) offset ≡ raises x
unfolding page_loop
page_loop_failure page size fuel offset x e = rw (e, page_loop)

not_empty : (size : ℕ) (rows : List Record) → is_empty (take size rows) ≡ false → 0 < length rows
not_empty zero rows e = cc
not_empty (suc n) [] e = cc
not_empty (suc n) (r ∷ rows) e = omega arith

-- A page and the rows behind it.
yield_page :
    (size : ℕ) (rows : List Record)
    → yield_from (take size rows) (yield_from (drop size rows) stop) ≡ yield_from rows stop
yield_page size rows =
    sym (yield_from-append (take size rows) (drop size rows) stop)
    ∙ ap (λ rs. yield_from rs stop) (take-append-drop size rows)

last_page :
    (size : ℕ) (rows : List Record)
    → length (take size rows) < size
    → yield_from (take size rows) stop ≡ yield_from rows stop
last_page size rows h =
    let e : drop size rows ≡ [] = drop-of_short size rows h in
    ap (λ rs. yield_from (take size rows) (yield_from rs stop)) (sym e) ∙ yield_page size rows

module _ (page : ℕ → Result (List Record)) (size : ℕ) (table : List Record) (pos : 0 < size)
    (serves : Serves page size table) where
  page_loop-table :
      (fuel offset : ℕ)
      → length (drop offset table) < fuel
      → page_loop page size fuel offset ≡ yield_from (drop offset table) stop
  page_loop-table zero offset h = elim h [ ]
  page_loop-table (suc fuel) offset h =
      let rest = page_loop-table fuel (offset + size) in
      rw (page_loop_step page size fuel offset _ (serves offset))
        (elim (Bool-cases (is_empty (take size (drop offset table)))) [
          | inl e ↦
              rw e (ap (λ rs. yield_from rs stop) (sym (no_rows size (drop offset table) pos e)))
          | inr e ↦ rw e (elim (Bool-cases (ltb (length (take size (drop offset table))) size)) [
            | inl short ↦ rw short (last_page size (drop offset table) (ltb→lt _ _ short))
            | inr full ↦ rw full (
                ap (yield_from (take size (drop offset table))) (
                  rest (
                    rw (← drop-drop offset size table) (
                      omega (
                        arith,
                        length-drop size (drop offset table),
                        not_empty size (drop offset table) e,
                      )))
                  ∙ ap (λ rs. yield_from rs stop) (sym (drop-drop offset size table)))
                ∙ yield_page size (drop offset table))
          ])
        ])

-- The request for the page at an offset.
abbrev pub page_query : ℕ → Option (Text × Date × Date) → Option Text → ℕ → Query
page_query page_size window order_by offset = record {
  limit = page_size;
  offset = offset;
  where_clause = window;
  order_by = order_by;
}

-- With pages of a positive size, against a portal that gives each page of a table within five
-- attempts, and on more rounds than the table has rows, the walk ends and yields the whole
-- table, every row once and in order.
pub fetch_all_paginated-table :
    (session : Session) (fuel page_size : ℕ) (window : Option (Text × Date × Date))
    (order_by : Option Text) (table : List Record)
    → 0 < page_size
    → ((offset : ℕ)
        → first_rows (session (page_query page_size window order_by offset)) 5 0
          ≡ some (take page_size (drop offset table)))
    → length table < fuel
    → fetch_all_paginated session fuel page_size window order_by ≡ yield_from table stop
unfolding fetch_all_paginated fetch_page
fetch_all_paginated-table session fuel page_size window order_by table pos answers enough =
    page_loop-table _ page_size table pos
      (λ offset.
        request_with_retry_lem session (page_query page_size window order_by offset)
        ∙ rw (answers offset))
      fuel 0 enough

take-nil : (n : ℕ) → take {A = Record} n [] ≡ []
take-nil zero = refl
take-nil (suc n) = refl

take-add : (m n : ℕ) (rows : List Record) → take m rows ++ take n (drop m rows) ≡ take (m + n) rows
take-add zero n rows = ap (λ k. take k rows) (omega arith)
take-add (suc m) n [] = take-nil n ∙ sym (take-nil (suc m + n))
take-add (suc m) n (r ∷ rows) =
    let e : suc (m + n) ≡ suc m + n = omega arith in
    rw (← e) (ap (λ rs. r ∷ rs) (take-add m n rows))

length-take : (m : ℕ) (rows : List Record) → m ≤ length rows → length (take m rows) ≡ m
length-take zero rows h = refl
length-take (suc m) [] h = elim h [ ]
length-take (suc m) (r ∷ rows) h = ap suc (length-take m rows (omega arith))

full_page_nonempty :
    (size : ℕ) (rs : List Record) → 0 < size → length rs ≡ size → is_empty rs ≡ false
full_page_nonempty size [] pos e = absurd (omega arith)
full_page_nonempty size (r ∷ rs) pos e = refl

full_page_not_short :
    (size : ℕ) (rs : List Record) → length rs ≡ size → ltb (length rs) size ≡ false
full_page_not_short size rs e = ground arith

mul_nonneg : (n size : ℕ) → 0 ≤ n * size
mul_nonneg n size = omega arith

-- With pages of a positive size, where every page before row `bad` of a table can be had and the
-- page at `bad` fails, a walk that reaches `bad` after `n` pages, on more fuel than that, yields
-- the rows of those pages and ends in that failure.
pub page_loop-failure :
    (page : ℕ → Result (List Record)) (size : ℕ) (table : List Record) (bad : ℕ) (x : Exception)
    → 0 < size
    → ((offset : ℕ) → offset < bad → page offset ≡ ok (take size (drop offset table)))
    → page bad ≡ err x
    → bad ≤ length table
    → (n fuel offset : ℕ) → offset + n * size ≡ bad
    → n < fuel
    → page_loop page size fuel offset ≡ yield_from (take (n * size) (drop offset table)) (raises x)
page_loop-failure page size table bad x pos serves fails fits n zero offset e h = elim h [ ]
page_loop-failure page size table bad x pos serves fails fits zero (suc fuel) offset e h =
    let here : offset ≡ bad = omega arith in
    rw (page_loop_failure page size fuel offset x (rw here fails)) (ground arith)
page_loop-failure page size table bad x pos serves fails fits (suc n) (suc fuel) offset e h =
    let whole =
      length-take size (drop offset table)
        (omega (arith, length-drop offset table, mul_nonneg n size)) in
    let rest =
      page_loop-failure page size table bad x pos serves fails fits n fuel (offset + size)
        (omega arith) (omega arith) in
    rw (page_loop_step page size fuel offset _ (serves offset (omega (arith, mul_nonneg n size)))) (
      rw (full_page_nonempty size _ pos whole, full_page_not_short size _ whole)
        (ap (yield_from (take size (drop offset table))) (
            rest
            ∙ ap (λ rs. yield_from (take (n * size) rs) (raises x))
                (sym (drop-drop offset size table)))
          ∙ sym (yield_from-append (take size (drop offset table)) _ (raises x))
          ∙ ap (λ rs. yield_from rs (raises x))
              (take-add size (n * size) (drop offset table)
                ∙ ap (λ k. take k (drop offset table)) (omega arith))))

-- The list of a walk: under the same conditions, and without an order, it is the whole table.
fetch_all-table :
    (session : Session) (fuel page_size : ℕ) (window : Option (Text × Date × Date))
    (table : List Record)
    → 0 < page_size
    → ((offset : ℕ)
        → first_rows (session (page_query page_size window none offset)) 5 0
          ≡ some (take page_size (drop offset table)))
    → length table < fuel
    → fetch_all session fuel page_size window ≡ ok table
unfolding fetch_all
fetch_all-table session fuel page_size window table pos answers enough =
    rw (fetch_all_paginated-table session fuel page_size window none table pos answers enough)
      (list_of-yield_from table)
