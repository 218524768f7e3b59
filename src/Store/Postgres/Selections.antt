-- ===== src/Store/Postgres/Selections.antt =====
-- The pages that the `List` methods of internal/store/postgres.go give.
use vpc_routing.Prelude.{
  length-map, In-map, In-map_elim, ℕ, min, ◌≤◌, ◌≡◌, ◌⊎◌, refl, sym, ap, subst, ◌∙◌, arith, inl,
  inr, true, some, List, [], ◌∷◌, map, length, keep, count_by, length-keep, All, In, In-keep,
  Pairwise, Result, ok, err, ok-inj, >>=-eq-ok,
}
use vpc_routing.Model.Entities.{Uuid, Time}
use vpc_routing.Store.Page.{ListResult, Newer}
use vpc_routing.Store.Postgres.{
  PgError, Query, Rows, Table, IsTable, IsReliable, IsSelection, holds_all, scan_all, read_all,
  limited,
}

-- What a page is that was cut off at `room`: as many of the matches as fit, all of them
-- where they fit, newest first, and nothing
-- that it leaves out is newer than anything on it; the total counts the page alone.
pub record IsCut {A : Type 0} (time : A → Time) (room : ℕ) (matches : List A) (r : ListResult A)
    : Type 0 where
  pub total : r.total_count ≡ length r.items
  pub size : length r.items ≡ min room (length matches)
  pub sorted : Pairwise (Newer time) r.items
  pub among : (z : A) → In z r.items → In z matches
  pub complete : (z : A) → length matches ≤ room → In z matches → In z r.items
  pub newest : (z : A) → In z matches → In z r.items ⊎ All (λ y. Newer time y z) r.items

scan_all-ok :
    {Row : Type 0} (scanned : List (Result PgError Row)) (rows : List Row)
    → scan_all scanned ≡ ok rows
    → scanned ≡ map ok rows
unfolding scan_all
scan_all-ok [] rows q = ap (map ok) (ok-inj q)
scan_all-ok (err e ∷ rest) rows q = absurd (err-ne-ok q)
  where
    err-ne-ok : err e ≡ ok rows → ⊥
    err-ne-ok n = cc
scan_all-ok (ok row ∷ rest) rows q =
    let (items, e, d) = >>=-eq-ok (scan_all rest) (λ items. ok (row ∷ items)) q in
    ap (λ xs. ok row ∷ xs) (scan_all-ok rest items e) ∙ ap (map ok) (ok-inj d)

module _ {Row A : Type 0} (f : Row → A) where
  All-map : (P : A → Type 0) (rs : List Row) → All (λ r. P (f r)) rs → All P (map f rs)
  All-map P [] a = tt
  All-map P (r ∷ rs) a = (a.0, All-map P rs a.1)

  Pairwise-map :
      (R : A → A → Type 0) (rs : List Row)
      → Pairwise (λ a b. R (f a) (f b)) rs
      → Pairwise R (map f rs)
  Pairwise-map R [] p = tt
  Pairwise-map R (r ∷ rs) p = (All-map (R (f r)) rs p.0, Pairwise-map R rs p.1)

  -- An ordered and limited selection, scanned, is a page of the scanned matches.
  pub selection-IsCut :
      (time : A → Time) (q : Query Row) (n : ℕ) (table answer : List Row)
      → q.is_ordered ≡ true
      → q.limit ≡ some n
      → IsSelection (λ r. time (f r)) q table answer
      → IsCut time n
          (map f (keep (holds_all q.conditions) table))
          (record { items = map f answer; total_count = length answer })
  selection-IsCut time q n table answer o l sel =
      let matches = keep (holds_all q.conditions) table in
      record {
        total = sym (length-map f answer);
        size =
            length-map f answer
            ∙ sel.size
            ∙ ap (λ k. limited k (count_by (holds_all q.conditions) table)) l
            ∙ ap (min n) (sym (length-map f matches ∙ length-keep (holds_all q.conditions) table));
        sorted = Pairwise-map (Newer time) answer (sel.sorted o);
        among = λ z m.
            (let (r, i, e) = In-map_elim f z answer m in
              subst (λ y. In y (map f matches)) (sym e)
                (In-map f r matches
                  ((In-keep (holds_all q.conditions) table r).1 (sel.among r i))));
        complete = λ z k m.
            (let (r, i, e) = In-map_elim f z matches m in
              let (j, c) = (In-keep (holds_all q.conditions) table r).0 i in
              subst (λ y. In y (map f answer)) (sym e)
                (In-map f r answer (sel.complete r (room_enough k) j c)));
        newest = λ z m.
            (let (r, i, e) = In-map_elim f z matches m in
              let (k, c) = (In-keep (holds_all q.conditions) table r).0 i in
              elim (sel.newest r o k c) [
                | inl j ↦ inl (subst (λ y. In y (map f answer)) (sym e) (In-map f r answer j))
                | inr a ↦ inr (
                    subst (λ y. All (λ u. Newer time u y) (map f answer)) (sym e)
                      (All-map (λ u. Newer time u (f r)) answer a))
              ]);
      }
    where
      room_enough :
          length (map f (keep (holds_all q.conditions) table)) ≤ n
          → limited q.limit (count_by (holds_all q.conditions) table)
            ≡ count_by (holds_all q.conditions) table
      room_enough k =
          ap (λ b. limited b (count_by (holds_all q.conditions) table)) l
          ∙ omega (
            arith,
            k,
            length-map f (keep (holds_all q.conditions) table),
            length-keep (holds_all q.conditions) table,
          )

module _ {Row : Type 0} (t : Table Row) (key : Row → Uuid) (time : Row → Time) (stored : Row → Row)
    (rows : t.State → List Row) (h : IsTable t key time stored rows) (whole : IsReliable t) where
  -- What the loop over the rows gives, where no reading ends early, is what the statement selects.
  pub read_all-IsSelection :
      (q : Query Row) (s : t.State) (answer : List Row)
      → read_all t q s ≡ ok answer
      → IsSelection time q (rows s) answer
  unfolding read_all
  read_all-IsSelection q s answer e = elim (Query-cases (t.query q s)) [
    | inl (r, g) ↦
        h.selected q s r answer g (whole q s r g)
          (scan_all-ok r.scanned answer (rw (read_all, g) at e))
    | inr (d, g) ↦ absurd (err-ne-ok d (rw (read_all, g) at e))
  ]
    where
      Query-cases :
          (r : Result PgError (Rows Row))
          → ((a : Rows Row) × (r ≡ ok a)) ⊎ ((d : PgError) × (r ≡ err d))
      Query-cases (ok a) = inl (a, refl)
      Query-cases (err d) = inr (d, refl)

      err-ne-ok : (d : PgError) → err d ≡ ok answer → ⊥
      err-ne-ok d n = cc
