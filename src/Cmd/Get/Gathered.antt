-- ===== src/Cmd/Get/Gathered.antt =====
-- What several goroutines fetch does not depend on the order in which they end.
use bscp_go.Prelude.{
  ℕ, zero, suc, ◌-◌, ◌≤◌, ◌<◌, ◌≡◌, refl, ap, ◌∙◌, inl, inr, Bool, true, false, ◌||◌, Option, none,
  some, List, [], ◌∷◌, arith, ◌==◌, if◌then◌else◌, Option-cases, lt-cases, length, get_elem?,
  get_elem?-lt,
}
use bscp_go.Cmd.Get.{set, gather_from, blanks, gather}

abbrev pub is_in : ℕ → List ℕ → Bool
is_in i [] = false
is_in i (j ∷ js) = i == j || is_in i js

-- Every goroutine of a list of that length ends.
abbrev pub AllEnd : ℕ → List ℕ → Type 0
AllEnd n order = (i : ℕ) → i < n → is_in i order ≡ true

module _ {A V : Type 0} (get : A → Option V) where
  -- The results in the order of the items; `none` if one fails.
  unfoldable pub in_order : List A → Option (List V)
  in_order [] = some []
  in_order (a ∷ items) = elim (get a) [
    | none ↦ none
    | some v ↦ elim (in_order items) [ none ↦ none | some vs ↦ some (v ∷ vs) ]
  ]

  -- What slot `i` holds at the end.
  abbrev slot_after : List A → List ℕ → List V → ℕ → Option V
  slot_after items order slots i = elim (get_elem? items i) [
    | none ↦ get_elem? slots i
    | some a ↦ elim (get a) [
      | none ↦ get_elem? slots i
      | some v ↦ if is_in i order then some v else get_elem? slots i
    ]
  ]

  get_elem?-set :
      (vs : List V) (i j : ℕ) (v : V)
      → i < length vs
      → get_elem? (set vs i v) j ≡ (if j == i then some v else get_elem? vs j)
  get_elem?-set [] i j v h = absurd (omega arith)
  get_elem?-set (x ∷ vs) zero zero v h = refl
  get_elem?-set (x ∷ vs) zero (suc j) v h = ground arith
  get_elem?-set (x ∷ vs) (suc i) zero v h = ground arith
  get_elem?-set (x ∷ vs) (suc i) (suc j) v h = get_elem?-set vs i j v (omega arith) ∙ ground arith

  length-set : (vs : List V) (i : ℕ) (v : V) → length (set vs i v) ≡ length vs
  length-set [] i v = refl
  length-set (x ∷ vs) zero v = refl
  length-set (x ∷ vs) (suc i) v = ap suc (length-set vs i v)

  get_elem?-ge : (items : List A) (i : ℕ) (a : A) → get_elem? items i ≡ some a → i < length items
  get_elem?-ge [] i a h = cc
  get_elem?-ge (x ∷ items) zero a h = omega arith
  get_elem?-ge (x ∷ items) (suc i) a h = omega (arith, get_elem?-ge items i a h)

  -- The slots behind all goroutines of the order, whether one failed or not.
  slot_lem :
      (items : List A) (order : List ℕ) (b : Bool) (slots : List V) (j : ℕ)
      → length slots ≡ length items
      → get_elem? (gather_from get items order (b, slots)).1 j ≡ slot_after items order slots j
  unfolding gather_from
  slot_lem items [] b slots j h = ground arith
  slot_lem items (i ∷ order) b slots j h = elim (Option-cases (get_elem? items i)) [
    | inl e ↦ rw (e, gather_from) (slot_lem items order b slots j h ∙ ground arith)
    | inr (a, e) ↦ elim (Option-cases (get a)) [
      | inl f ↦ rw (e, f, gather_from) (slot_lem items order true slots j h ∙ ground arith)
      | inr (v, f) ↦
          rw (e, f, gather_from)
            (slot_lem items order b (set slots i v) j (length-set slots i v ∙ h)
              ∙ ground (arith, get_elem?-set slots i j v (rw h (get_elem?-ge items i a e))))
    ]
  ]

  in_order-length :
      (items : List A) (vs : List V) → in_order items ≡ some vs → length vs ≡ length items
  unfolding in_order
  in_order-length [] vs h = ground arith
  in_order-length (a ∷ items) vs h = elim (Option-cases (get a)) [
    | inl e ↦ absurd (cc (rw (e, in_order) at h))
    | inr (v, e) ↦ elim (Option-cases (in_order items)) [
      | inl f ↦ absurd (cc (rw (e, f, in_order) at h))
      | inr (ws, f) ↦ ground (arith, in_order-length items ws f)
    ]
  ]

  abbrev item_result : List A → ℕ → Option V
  item_result items j = elim (get_elem? items j) [ none ↦ none | some a ↦ get a ]

  in_order-get_elem? :
      (items : List A) (vs : List V) (j : ℕ)
      → in_order items ≡ some vs
      → item_result items j ≡ get_elem? vs j
  unfolding in_order
  in_order-get_elem? [] vs j h = ground arith
  in_order-get_elem? (a ∷ items) vs j h = elim (Option-cases (get a)) [
    | inl e ↦ absurd (cc (rw (e, in_order) at h))
    | inr (v, e) ↦ elim (Option-cases (in_order items)) [
      | inl f ↦ absurd (cc (rw (e, f, in_order) at h))
      | inr (ws, f) ↦
          let same : v ∷ ws ≡ vs = ground arith in
          rw (← same) (ground (arith, in_order-get_elem? items ws (j - 1) f))
    ]
  ]

  failing_item :
      (items : List A)
      → in_order items ≡ none
      → (i : ℕ) × (a : A) × (get_elem? items i ≡ some a) × (get a ≡ none)
  unfolding in_order
  failing_item [] h = absurd (cc)
  failing_item (a ∷ items) h = elim (Option-cases (get a)) [
    | inl e ↦ (0, a, refl, e)
    | inr (v, e) ↦ elim (Option-cases (in_order items)) [
      | inl f ↦ let (i, b, g, k) = failing_item items f in (suc i, b, g, k)
      | inr (ws, f) ↦ absurd (cc (rw (e, f, in_order) at h))
    ]
  ]

  failed_stays :
      (items : List A) (order : List ℕ) (slots : List V)
      → (gather_from get items order (true, slots)).0 ≡ true
  unfolding gather_from
  failed_stays items [] slots = refl
  failed_stays items (i ∷ order) slots = elim (Option-cases (get_elem? items i)) [
    | inl e ↦ rw (e, gather_from) (failed_stays items order slots)
    | inr (a, e) ↦ elim (Option-cases (get a)) [
      | inl f ↦ rw (e, f, gather_from) (failed_stays items order slots)
      | inr (v, f) ↦ rw (e, f, gather_from) (failed_stays items order (set slots i v))
    ]
  ]

  one_fails :
      (items : List A) (order : List ℕ) (b : Bool) (slots : List V) (k : ℕ) (c : A)
      → get_elem? items k ≡ some c
      → get c ≡ none
      → is_in k order ≡ true
      → (gather_from get items order (b, slots)).0 ≡ true
  unfolding gather_from
  one_fails items [] b slots k c g n h = cc
  one_fails items (i ∷ order) b slots k c g n h = elim (Option-cases (get_elem? items i)) [
    | inl e ↦ rw (e, gather_from) (one_fails items order b slots k c g n (ground arith))
    | inr (a, e) ↦ elim (Option-cases (get a)) [
      | inl f ↦ rw (e, f, gather_from) (failed_stays items order slots)
      | inr (v, f) ↦
          rw (e, f, gather_from) (one_fails items order b (set slots i v) k c g n (ground arith))
    ]
  ]

  none_fails :
      (items : List A) (vs : List V) (order : List ℕ) (slots : List V)
      → in_order items ≡ some vs
      → (gather_from get items order (false, slots)).0 ≡ false
  unfolding gather_from
  none_fails items vs [] slots h = refl
  none_fails items vs (i ∷ order) slots h = elim (Option-cases (get_elem? items i)) [
    | inl e ↦ rw (e, gather_from) (none_fails items vs order slots h)
    | inr (a, e) ↦ elim (Option-cases (get a)) [
      | inl f ↦
          let (w, g) =
            get_elem?-lt vs i (rw (in_order-length items vs h) (get_elem?-ge items i a e)) in
          absurd (ground (arith, in_order-get_elem? items vs i h))
      | inr (v, f) ↦ rw (e, f, gather_from) (none_fails items vs order (set slots i v) h)
    ]
  ]

  ext : (xs ys : List V) → ((j : ℕ) → get_elem? xs j ≡ get_elem? ys j) → xs ≡ ys
  ext [] [] h = refl
  ext [] (y ∷ ys) h = absurd (cc (h 0))
  ext (x ∷ xs) [] h = absurd (cc (h 0))
  ext (x ∷ xs) (y ∷ ys) h = ground (arith, h 0, ext xs ys (λ j. h (suc j)))

  get_elem?-le : {B : Type 0} (xs : List B) (j : ℕ) → length xs ≤ j → get_elem? xs j ≡ none
  get_elem?-le [] j h = refl
  get_elem?-le (x ∷ xs) zero h = absurd (omega arith)
  get_elem?-le (x ∷ xs) (suc j) h = get_elem?-le xs j (omega arith)

  filled_slot :
      (items : List A) (vs slots : List V) (order : List ℕ) (j : ℕ)
      → in_order items ≡ some vs
      → length slots ≡ length items
      → AllEnd (length items) order
      → slot_after items order slots j ≡ get_elem? vs j
  filled_slot items vs slots order j h n all = elim (lt-cases j (length items)) [
    | inl less ↦
        let (w, g) = get_elem?-lt vs j (rw (in_order-length items vs h) less) in
        let (a, e) = get_elem?-lt items j less in
        ground (arith, in_order-get_elem? items vs j h, all j less)
    | inr more ↦ ground (
      arith,
      get_elem?-le items j more,
      get_elem?-le slots j (rw n more),
      get_elem?-le vs j (rw (in_order-length items vs h) more),
    )
  ]

  length-blanks : (blank : V) (items : List A) → length (blanks blank items) ≡ length items
  length-blanks blank [] = refl
  length-blanks blank (a ∷ items) = ap suc (length-blanks blank items)

  -- When every goroutine ends, in whatever order, the results are those of the items one after the
  -- other: an error if one fails, and else the values in the order of the items.
  pub gather-in_order :
      (blank : V) (items : List A) (order : List ℕ)
      → AllEnd (length items) order
      → gather get blank items order ≡ in_order items
  unfolding gather
  gather-in_order blank items order all = elim (Option-cases (in_order items)) [
    | inl e ↦
        let (i, a, g, n) = failing_item items e in
        let bad =
          one_fails items order false (blanks blank items) i a g n
            (all i (get_elem?-ge items i a g)) in
        rw e (simp bad refl)
    | inr (vs, e) ↦
        let good = none_fails items vs order (blanks blank items) e in
        let same = ext _ vs (λ j.
          slot_lem items order false (blanks blank items) j (length-blanks blank items)
          ∙ filled_slot items vs (blanks blank items) order j e (length-blanks blank items) all) in
        rw e (simp (good, same) refl)
  ]
