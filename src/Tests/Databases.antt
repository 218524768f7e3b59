-- ===== src/Tests/Databases.antt =====
-- A database that keeps each table as a list, newest last, and does what PostgreSQL documents.
use vpc_routing.Prelude.{
  ℕ, zero, suc, ◌≤◌, ◌≡◌, ◌≢◌, ◌⊎◌, refl, sym, ap, subst, ◌∙◌, arith, inl, inr, Bool, true, false,
  Option, none, some, List, [], ◌∷◌, ◌++◌, map, if◌then◌else◌, ◌==◌, nat_eq, nat_beq_iff, length,
  take, length-take, keep, In-keep, length-keep, any, first, first-some, first-none, first-In,
  count_by, All, In, Pairwise, Bool-cases, true-ne-false, Result, ok, err, ok-inj,
}
use vpc_routing.Model.Entities.{Uuid, Time}
use vpc_routing.Store.Page.{
  newest_first, newest_first-sorted, In-newest_first, length-newest_first, take-sorted, In-take,
  left_out,
}
use vpc_routing.Store.Postgres.{
  PgError, other, no_rows, RowError, Query, Table, IsTable, IsReliable, IsSelection, holds_all,
  set_where, limited,
}

oks : {A : Type 0} → List (Result PgError A) → List A
oks [] = []
oks (ok a ∷ rs) = a ∷ oks rs
oks (err e ∷ rs) = oks rs

oks-map : {A : Type 0} (xs : List A) → oks (map ok xs) ≡ xs
unfolding oks
oks-map [] = refl
oks-map (x ∷ xs) = ap (λ ys. x ∷ ys) (oks-map xs)

take-whole : {A : Type 0} (z : A) (n : ℕ) (xs : List A) → length xs ≤ n → In z xs → In z (take n xs)
take-whole z zero [] h m = m
take-whole z zero (x ∷ xs) h m = absurd (omega (arith, h))
take-whole z (suc n) [] h m = m
take-whole z (suc n) (x ∷ xs) h (inl q) = inl q
take-whole z (suc n) (x ∷ xs) h (inr m) = inr (take-whole z n xs (omega (arith, h)) m)

module _ {Row : Type 0} (key : Row → Uuid) (time : Row → Time) (stored : Row → Row) where
  abbrev pub in_order : Bool → List Row → List Row
  in_order true rs = newest_first time rs
  in_order false rs = rs

  abbrev pub cut : Option ℕ → List Row → List Row
  cut none rs = rs
  cut (some n) rs = take n rs

  abbrev pub answer_of : Query Row → List Row → List Row
  answer_of q rs = cut q.limit (in_order q.is_ordered (keep (holds_all q.conditions) rs))

  abbrev pub one_row : Option Row → Result RowError Row
  one_row none = err no_rows
  one_row (some r) = ok r

  abbrev pub inserted_row : Row → List Row → List Row × Result PgError (Unit {0})
  inserted_row r rs =
      if any (λ a. key a == key r) rs then (rs, err other) else (rs ++ stored r ∷ [], ok tt)

  abbrev pub list_table : Table Row
  list_table = record {
    State = List Row;
    query = λ q rs. ok (record { scanned = map ok (answer_of q rs); failure = none });
    query_row = λ q rs. one_row (first (holds_all q.conditions) rs);
    count = λ cs rs. ok (count_by (holds_all cs) rs);
    insert = inserted_row;
    update =
        λ set cs rs. (map (set_where (λ r. stored (set r)) cs) rs, ok (count_by (holds_all cs) rs));
  }

  In-in_order :
      (b : Bool) (z : Row) (rs : List Row)
      → (In z (in_order b rs) → In z rs) × (In z rs → In z (in_order b rs))
  In-in_order true z rs = In-newest_first time z rs
  In-in_order false z rs = (λ m. m, λ m. m)

  length-in_order : (b : Bool) (rs : List Row) → length (in_order b rs) ≡ length rs
  length-in_order true rs = length-newest_first time rs
  length-in_order false rs = refl

  in_order-sorted :
      (b : Bool) (rs : List Row) → b ≡ true → Pairwise (λ a c. time c ≤ time a) (in_order b rs)
  in_order-sorted true rs e = newest_first-sorted time rs
  in_order-sorted false rs e = absurd (true-ne-false (sym e))

  length-cut : (l : Option ℕ) (rs : List Row) → length (cut l rs) ≡ limited l (length rs)
  length-cut none rs = refl
  length-cut (some n) rs = length-take n rs

  In-cut : (l : Option ℕ) (z : Row) (rs : List Row) → In z (cut l rs) → In z rs
  In-cut none z rs m = m
  In-cut (some n) z rs m = In-take time z n rs m

  cut-sorted :
      (l : Option ℕ) (rs : List Row)
      → Pairwise (λ a c. time c ≤ time a) rs
      → Pairwise (λ a c. time c ≤ time a) (cut l rs)
  cut-sorted none rs s = s
  cut-sorted (some n) rs s = take-sorted time n rs s

  cut-complete :
      (l : Option ℕ) (z : Row) (rs : List Row)
      → limited l (length rs) ≡ length rs
      → In z rs
      → In z (cut l rs)
  cut-complete none z rs e m = m
  cut-complete (some n) z rs e m = take-whole z n rs (ground (arith, e)) m

  cut-newest :
      (l : Option ℕ) (z : Row) (rs : List Row)
      → Pairwise (λ a c. time c ≤ time a) rs
      → In z rs
      → In z (cut l rs) ⊎ All (λ a. time z ≤ time a) (cut l rs)
  cut-newest none z rs s m = inl m
  cut-newest (some n) z rs s m = left_out time z n rs s m

  answer_of-IsSelection : (q : Query Row) (rs : List Row) → IsSelection time q rs (answer_of q rs)
  answer_of-IsSelection q rs =
      let p = holds_all q.conditions in
      let ms = keep p rs in
      let ordered = in_order q.is_ordered ms in
      let size = length-in_order q.is_ordered ms ∙ length-keep p rs in
      record {
        size = length-cut q.limit ordered ∙ ap (limited q.limit) size;
        among = λ r m.
            (In-keep p rs r).0 ((In-in_order q.is_ordered r ms).0 (In-cut q.limit r ordered m));
        sorted = λ e. cut-sorted q.limit ordered (in_order-sorted q.is_ordered ms e);
        complete = λ r e m c.
            cut-complete q.limit r ordered (ap (limited q.limit) size ∙ e ∙ sym size)
              ((In-in_order q.is_ordered r ms).1 ((In-keep p rs r).1 (m, c)));
        newest = λ r e m c.
            cut-newest q.limit r ordered (in_order-sorted q.is_ordered ms e)
              ((In-in_order q.is_ordered r ms).1 ((In-keep p rs r).1 (m, c)));
      }

  pub list_table-IsReliable : IsReliable list_table
  list_table-IsReliable q s r e = ap (λ w. w.failure) (sym (ok-inj e))

  kept_out :
      (r : Row) (rs : List Row) → any (λ a. key a == key r) rs ≡ false → All (λ a. key a ≢ key r) rs
  kept_out r [] e = tt
  kept_out r (a ∷ rs) e =
      (ground (arith, e, nat_beq_iff (key a) (key r)), kept_out r rs (ground (arith, e)))

  insert-cases :
      (r : Row) (rs : List Row)
      → (inserted_row r rs).1 ≡ ok tt
      → (any (λ a. key a == key r) rs ≡ false) × ((inserted_row r rs).0 ≡ rs ++ stored r ∷ [])
  insert-cases r rs e = elim (Bool-cases (any (λ a. key a == key r) rs)) [
    | inl k ↦ absurd (err-ne-ok (rw k at e))
    | inr k ↦ (k, rw k refl)
  ]
    where
      err-ne-ok : ◌≡◌ {A = Result PgError (Unit {0})} (err other) (ok tt) → ⊥
      err-ne-ok h = cc

  one_row-cases : (o : Option Row) (r : Row) → one_row o ≡ ok r → o ≡ some r
  one_row-cases none r e = cc
  one_row-cases (some a) r e = cc

  one_row-none : (o : Option Row) → one_row o ≡ err no_rows → o ≡ none
  one_row-none none e = refl
  one_row-none (some a) e = cc

  pub list_table-IsTable : IsTable list_table key time stored (λ rs. rs)
  list_table-IsTable = record {
    inserted = λ r s e. (insert-cases r s e).1;
    inserted_new = λ r s e. kept_out r s (insert-cases r s e).0;
    updated = λ set cs s n e. refl;
    affected = λ set cs s n e. sym (ok-inj e);
    found = λ q s r e.
        (let f = one_row-cases (first (holds_all q.conditions) s) r e in
          (first-In (holds_all q.conditions) s r f, first-some (holds_all q.conditions) s r f));
    missing = λ q s e.
        first-none (holds_all q.conditions) s (one_row-none (first (holds_all q.conditions) s) e);
    counted = λ cs s n e. sym (ok-inj e);
    selected = λ q s r answer e w g.
        subst (IsSelection time q s)
          (sym (oks-map (answer_of q s))
            ∙ ap oks (ap (λ z. z.scanned) (ok-inj e) ∙ g)
            ∙ oks-map answer)
          (answer_of-IsSelection q s);
  }
