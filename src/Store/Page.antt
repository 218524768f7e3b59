-- ===== src/Store/Page.antt =====
-- What the `List` methods of internal/store/memory.go share: newest first, and one page.
-- `sort.Slice` leaves the order of equal times open; here such entries keep their order.
use vpc_routing.Prelude.{
  ℕ, zero, suc, ◌≤◌, ◌≡◌, refl, ◌∙◌, ◌↔◌, inl, inr, ◌⊎◌, arith, min, List, [], ◌∷◌, if◌then◌else◌,
  ltb, ℤ, is_positive, pos_part, length, length-take, take, All, All-In, In, Pairwise, Bool-cases,
  String,
}

pub record ListParams : Type 0 where
  pub page_size : ℤ
  pub page_token : String

pub record ListResult {ℓ} (A : Type ℓ) : Type ℓ where
  pub items : List A
  pub total_count : ℕ

module _ {A : Type 0} (time : A → ℕ) where
  unfoldable pub put_in_order : A → List A → List A
  put_in_order x [] = x ∷ []
  put_in_order x (y ∷ ys) = if ltb (time y) (time x) then x ∷ y ∷ ys else y ∷ put_in_order x ys

  unfoldable pub newest_first : List A → List A
  unfolding put_in_order
  newest_first [] = []
  newest_first (x ∷ xs) = put_in_order x (newest_first xs)

  unfoldable pub page_of : List A → ListParams → ListResult A
  unfolding newest_first
  page_of matches params =
      let sorted = newest_first matches in
      let total = length matches in
      let size = if is_positive params.page_size then pos_part params.page_size else 50 in
      record { items = take (if ltb total size then total else size) sorted; total_count = total }

  length-put_in_order : (x : A) (ys : List A) → length (put_in_order x ys) ≡ suc (length ys)
  unfolding put_in_order
  length-put_in_order x [] = refl
  length-put_in_order x (y ∷ ys) = ground (arith, length-put_in_order x ys)

  pub length-newest_first : (xs : List A) → length (newest_first xs) ≡ length xs
  unfolding newest_first
  length-newest_first [] = refl
  length-newest_first (x ∷ xs) =
      omega (arith, length-put_in_order x (newest_first xs), length-newest_first xs)

  In-put_in_order : (x z : A) (ys : List A) → In z (put_in_order x ys) ↔ ((z ≡ x) ⊎ In z ys)
  unfolding put_in_order
  In-put_in_order x z [] = (λ h. h, λ h. h)
  In-put_in_order x z (y ∷ ys) =
      let r = In-put_in_order x z ys in
      elim (Bool-cases (ltb (time y) (time x))) [
        | inl e ↦ rw e (λ h. h, λ h. h)
        | inr e ↦ rw e (
          λ h. (elim h [
            | inl q ↦ inr (inl q)
            | inr m ↦ (elim (r.0 m) [ inl q ↦ inl q | inr n ↦ inr (inr n) ])
          ]),
          λ h. (elim h [
            | inl q ↦ inr (r.1 (inl q))
            | inr m ↦ (elim m [ inl q ↦ inl q | inr n ↦ inr (r.1 (inr n)) ])
          ]),
        )
      ]

  pub In-newest_first : (z : A) (xs : List A) → In z (newest_first xs) ↔ In z xs
  unfolding newest_first
  In-newest_first z [] = (λ h. h, λ h. h)
  In-newest_first z (x ∷ xs) =
      let r = In-newest_first z xs in
      let s = In-put_in_order x z (newest_first xs) in
      (
        λ h. (elim (s.0 h) [ inl q ↦ inl q | inr m ↦ inr (r.0 m) ]),
        λ h. s.1 (elim h [ inl q ↦ inl q | inr m ↦ inr (r.1 m) ]),
      )

  -- `x` is at least as recent as `y`.
  abbrev pub Newer : A → A → Type 0
  Newer x y = time y ≤ time x

  All-put_in_order :
      (b x : A) (ys : List A) → Newer b x → All (Newer b) ys → All (Newer b) (put_in_order x ys)
  unfolding put_in_order
  All-put_in_order b x [] h a = (h, tt)
  All-put_in_order b x (y ∷ ys) h a = elim (Bool-cases (ltb (time y) (time x))) [
    | inl e ↦ rw e (h, a)
    | inr e ↦ rw e (a.0, All-put_in_order b x ys h a.1)
  ]

  All-Newer_trans : (x y : A) (ys : List A) → Newer x y → All (Newer y) ys → All (Newer x) ys
  All-Newer_trans x y [] h a = tt
  All-Newer_trans x y (z ∷ ys) h a = (omega (arith, h, a.0), All-Newer_trans x y ys h a.1)

  put_in_order-sorted :
      (x : A) (ys : List A) → Pairwise Newer ys → Pairwise Newer (put_in_order x ys)
  unfolding put_in_order
  put_in_order-sorted x [] s = (tt, tt)
  put_in_order-sorted x (y ∷ ys) s = elim (Bool-cases (ltb (time y) (time x))) [
    | inl e ↦ rw e ((ground arith, All-Newer_trans x y ys (ground arith) s.0), s)
    | inr e ↦ rw e (All-put_in_order y x ys (ground arith) s.0, put_in_order-sorted x ys s.1)
  ]

  pub newest_first-sorted : (xs : List A) → Pairwise Newer (newest_first xs)
  unfolding newest_first
  newest_first-sorted [] = tt
  newest_first-sorted (x ∷ xs) = put_in_order-sorted x (newest_first xs) (newest_first-sorted xs)

  All-take : (P : A → Type 0) (n : ℕ) (xs : List A) → All P xs → All P (take n xs)
  All-take P zero xs a = tt
  All-take P (suc n) [] a = tt
  All-take P (suc n) (x ∷ xs) a = (a.0, All-take P n xs a.1)

  pub take-sorted : (n : ℕ) (xs : List A) → Pairwise Newer xs → Pairwise Newer (take n xs)
  take-sorted zero xs s = tt
  take-sorted (suc n) [] s = tt
  take-sorted (suc n) (x ∷ xs) s = (All-take (Newer x) n xs s.0, take-sorted n xs s.1)

  pub In-take : (z : A) (n : ℕ) (xs : List A) → In z (take n xs) → In z xs
  In-take z zero xs m = absurd m
  In-take z (suc n) [] m = absurd m
  In-take z (suc n) (x ∷ xs) (inl q) = inl q
  In-take z (suc n) (x ∷ xs) (inr m) = inr (In-take z n xs m)

  pub left_out :
      (z : A) (n : ℕ) (xs : List A)
      → Pairwise Newer xs
      → In z xs
      → In z (take n xs) ⊎ All (λ y. Newer y z) (take n xs)
  left_out z zero xs s m = inr tt
  left_out z (suc n) [] s m = absurd m
  left_out z (suc n) (x ∷ xs) s (inl q) = inl (inl q)
  left_out z (suc n) (x ∷ xs) s (inr m) = elim (left_out z n xs s.1 m) [
    | inl k ↦ inl (inr k)
    | inr a ↦ inr (All-In (Newer x) xs z s.0 m, a)
  ]

  -- The page size in force: 50 where the request gives none.
  abbrev pub size_in_force : ListParams → ℕ
  size_in_force params = if is_positive params.page_size then pos_part params.page_size else 50

  -- What a page of `matches` is: as many of them as fit, newest first, and nothing that it leaves
  -- out is newer than anything on it; the total counts them all.
  pub record IsPage (matches : List A) (params : ListParams) (r : ListResult A) : Type 0 where
    pub total : r.total_count ≡ length matches
    pub size : length r.items ≡ min (size_in_force params) (length matches)
    pub sorted : Pairwise Newer r.items
    pub among : (z : A) → In z r.items → In z matches
    pub newest : (z : A) → In z matches → In z r.items ⊎ All (λ y. Newer y z) r.items

  -- A page of a list holds as many of the matches as fit, newest first, and nothing that it
  -- leaves out is newer than anything on it; the total counts all the matches.
  pub page_of-IsPage : (ms : List A) (params : ListParams) → IsPage ms params (page_of ms params)
  unfolding page_of
  page_of-IsPage ms params =
      let n = if ltb (length ms) (size_in_force params) then length ms else size_in_force params in
      let s = newest_first-sorted ms in
      record {
        total = refl;
        size = length-take n (newest_first ms) ∙ ground (arith, length-newest_first ms);
        sorted = take-sorted n (newest_first ms) s;
        among = λ z m. (In-newest_first z ms).0 (In-take z n (newest_first ms) m);
        newest = λ z m. left_out z n (newest_first ms) s ((In-newest_first z ms).1 m);
      }
