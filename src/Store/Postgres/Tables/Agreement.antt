-- ===== src/Store/Postgres/Tables/Agreement.antt =====
-- The agreement of a map of internal/store/memory.go with a table of internal/store/postgres.go: both
-- hold the same entries, in the order in which they came.
use vpc_routing.Prelude.{
  ◌≡◌, ◌≢◌, inl, inr, refl, sym, ap, subst, ◌∙◌, arith, Bool, false, none, some, List, [], ◌∷◌,
  ◌++◌, map, ◌==◌, nat_eq, nat_beq_iff, keep, count_by, All, In, Bool-cases, any,
}
use vpc_routing.Prelude.Maps.{Map, lookup, insert, values}
use vpc_routing.Model.Entities.{Uuid}
use vpc_routing.Store.Postgres.Tables.{
  index, Distinct, replace, lookup-index_absent, lookup-index_present, lookup-index_In,
  insert-index_new, insert-index_old, values-index, replace-Distinct, append-Distinct,
}

module _ {V Row : Type 0} (key : V → Uuid) (row : V → Row) where
  -- The map and the table hold the same entries, each under its own key.
  pub record Agree (m : Map Uuid V) (rows : List Row) : Type 0 where
    pub held : List V
    pub entries : m ≡ index key held
    pub contents : rows ≡ map row held
    pub distinct : Distinct key held

  map-append_one : (vs : List V) (v : V) → map row (vs ++ v ∷ []) ≡ map row vs ++ row v ∷ []
  map-append_one [] v = refl
  map-append_one (u ∷ vs) v = ap (λ rs. row u ∷ rs) (map-append_one vs v)

  All-map_elim : (P : Row → Type 0) (vs : List V) → All P (map row vs) → All (λ v. P (row v)) vs
  All-map_elim P [] a = tt
  All-map_elim P (v ∷ vs) a = (a.0, All-map_elim P vs a.1)

  pub insert-Agree :
      (row_key : Row → Uuid) (v : V) (m : Map Uuid V) (rows : List Row)
      → ((u : V) → row_key (row u) ≡ key u)
      → Agree m rows
      → All (λ r. row_key r ≢ key v) rows
      → (lookup (key v) m ≡ none) × Agree (insert (key v) v m) (rows ++ row v ∷ [])
  insert-Agree row_key v m rows k a fresh =
      let vs = a.held in
      let new = All-key vs (
        All-map_elim (λ r. row_key r ≢ key v) vs
          (subst (All (λ r. row_key r ≢ key v)) a.contents fresh)) in
      (
        ap (lookup (key v)) a.entries ∙ lookup-index_absent key (key v) vs new,
        record {
          held = vs ++ v ∷ [];
          entries = ap (insert (key v) v) a.entries ∙ insert-index_new key v vs new;
          contents = ap (λ rs. rs ++ row v ∷ []) a.contents ∙ sym (map-append_one vs v);
          distinct = append-Distinct key v vs new a.distinct;
        },
      )
    where
      All-key : (vs : List V) → All (λ u. row_key (row u) ≢ key v) vs → All (λ u. key u ≢ key v) vs
      All-key [] h = tt
      All-key (u ∷ vs) h = (λ q. h.0 (k u ∙ q), All-key vs h.1)

  map-unmoved :
      (f : Row → Row) (w : V) (vs : List V)
      → ((u : V) → key u ≢ key w → f (row u) ≡ row u)
      → All (λ v. key w ≢ key v) vs
      → map f (map row vs) ≡ map row vs
  map-unmoved f w [] h a = refl
  map-unmoved f w (v ∷ vs) h a = rw (h v (λ q. a.0 (sym q)), map-unmoved f w vs h a.1) refl

  map-replace :
      (f : Row → Row) (w old : V) (vs : List V)
      → Distinct key vs
      → lookup (key w) (index key vs) ≡ some old
      → ((u : V) → key u ≢ key w → f (row u) ≡ row u)
      → f (row old) ≡ row w
      → map f (map row vs) ≡ map row (replace key w vs)
  unfolding lookup
  map-replace f w old [] d q h e = refl
  map-replace f w old (v ∷ vs) d q h e = elim (Bool-cases (key v == key w)) [
    | inl t ↦
        (let k = (nat_beq_iff (key v) (key w)).0 t in
          rw
            (
              t,
              some-inj (rw t at q),
              e,
              map-unmoved f w vs h (subst (λ j. All (λ b. j ≢ key b) vs) k d.0),
            )
            refl)
    | inr t ↦ rw (t, h v (ne t), map-replace f w old vs d.1 (rw t at q) h e) refl
  ]
    where
      some-inj : some v ≡ some old → v ≡ old
      some-inj s = cc

      ne : (key v == key w) ≡ false → key v ≢ key w
      ne t = ground (arith, nat_beq_iff (key v) (key w))

  pub update-Agree :
      (f : Row → Row) (w old : V) (m : Map Uuid V) (rows : List Row)
      → Agree m rows
      → lookup (key w) m ≡ some old
      → ((u : V) → key u ≢ key w → f (row u) ≡ row u)
      → f (row old) ≡ row w
      → Agree (insert (key w) w m) (map f rows)
  update-Agree f w old m rows a q h e =
      let found = ap (lookup (key w)) (sym a.entries) ∙ q in
      record {
        held = replace key w a.held;
        entries = ap (insert (key w) w) a.entries ∙ insert-index_old key w old a.held found;
        contents = ap (map f) a.contents ∙ map-replace f w old a.held a.distinct found h e;
        distinct = replace-Distinct key w a.held a.distinct;
      }

  -- A row of the table is the row of the entry under its key.
  pub row-found :
      (row_key : Row → Uuid) (m : Map Uuid V) (rows : List Row) (r : Row)
      → ((u : V) → row_key (row u) ≡ key u)
      → Agree m rows
      → In r rows
      → (v : V) × (lookup (row_key r) m ≡ some v) × (r ≡ row v)
  row-found row_key m rows r k a i =
      let (v, n, e) = from_map a.held (subst (In r) a.contents i) in
      (
        v,
        ap (λ j. lookup j m) (ap row_key e ∙ k v)
            ∙ ap (lookup (key v)) a.entries
            ∙ lookup-index_present key v a.held a.distinct n,
        e,
      )
    where
      from_map : (vs : List V) → In r (map row vs) → (v : V) × In v vs × (r ≡ row v)
      from_map [] n = absurd n
      from_map (v ∷ vs) (inl e) = (v, inl refl, e)
      from_map (v ∷ vs) (inr n) = (let (u, i', e) = from_map vs n in (u, inr i', e))

  -- The rows that pass a test are those of the entries that pass it.
  pub count-Agree :
      (m : Map Uuid V) (rows : List Row) (p : V → Bool) (c : Row → Bool)
      → ((v : V) → c (row v) ≡ p v)
      → Agree m rows
      → count_by c rows ≡ count_by p (values m)
  count-Agree m rows p c h a =
      ap (count_by c) a.contents
      ∙ counted a.held
      ∙ ap (count_by p) (sym (ap values a.entries ∙ values-index key a.held))
    where
      counted : (vs : List V) → count_by c (map row vs) ≡ count_by p vs
      counted [] = refl
      counted (v ∷ vs) = rw (h v, counted vs) refl

  pub keep-Agree :
      (m : Map Uuid V) (rows : List Row) (p : V → Bool) (c : Row → Bool)
      → ((v : V) → c (row v) ≡ p v)
      → Agree m rows
      → keep c rows ≡ map row (keep p (values m))
  keep-Agree m rows p c h a =
      ap (keep c) a.contents
      ∙ kept a.held
      ∙ ap (λ vs. map row (keep p vs)) (sym (ap values a.entries ∙ values-index key a.held))
    where
      kept : (vs : List V) → keep c (map row vs) ≡ map row (keep p vs)
      kept [] = refl
      kept (v ∷ vs) = elim (Bool-cases (p v)) [
        | inl e ↦ rw (h v, e, kept vs) refl
        | inr e ↦ rw (h v, e, kept vs) refl
      ]

  -- The row of an entry is in the table.
  pub row-held :
      (m : Map Uuid V) (rows : List Row) (k : Uuid) (v : V)
      → Agree m rows
      → lookup k m ≡ some v
      → In (row v) rows × (key v ≡ k)
  row-held m rows k v a q =
      let (i, e) = lookup-index_In key k v a.held (ap (lookup k) (sym a.entries) ∙ q) in
      (subst (In (row v)) (sym a.contents) (to_map a.held i), e)
    where
      to_map : (vs : List V) → In v vs → In (row v) (map row vs)
      to_map [] n = absurd n
      to_map (u ∷ vs) (inl e) = inl (ap row e)
      to_map (u ∷ vs) (inr n) = inr (to_map vs n)

  -- A row of the table is that of an entry among the values.
  pub value-found :
      (m : Map Uuid V) (rows : List Row) (r : Row)
      → Agree m rows
      → In r rows
      → (v : V) × In v (values m) × (r ≡ row v)
  value-found m rows r a i =
      let (v, n, e) = from_map a.held (subst (In r) a.contents i) in
      (v, subst (In v) (sym (ap values a.entries ∙ values-index key a.held)) n, e)
    where
      from_map : (vs : List V) → In r (map row vs) → (v : V) × In v vs × (r ≡ row v)
      from_map [] n = absurd n
      from_map (v ∷ vs) (inl e) = (v, inl refl, e)
      from_map (v ∷ vs) (inr n) = (let (u, i', e) = from_map vs n in (u, inr i', e))

  -- No row passes a test that no entry passes.
  pub any-Agree :
      (m : Map Uuid V) (rows : List Row) (p : V → Bool) (c : Row → Bool)
      → ((v : V) → c (row v) ≡ p v)
      → Agree m rows
      → any c rows ≡ any p (values m)
  any-Agree m rows p c h a =
      ap (any c) a.contents
      ∙ same a.held
      ∙ ap (any p) (sym (ap values a.entries ∙ values-index key a.held))
    where
      same : (vs : List V) → any c (map row vs) ≡ any p vs
      same [] = refl
      same (v ∷ vs) = rw (h v, same vs) refl
