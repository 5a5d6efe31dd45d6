-- ===== src/Tiup/Nodes/Missing.antt =====
-- The components that one cluster has and another has not.
use naglfar.Prelude.{
  suc, ◌+◌, ◌≤◌, true, Bool-cases, List, [], ◌∷◌, length, In, if◌then◌else◌, ◌≡◌, ◌≢◌, ◌↔◌, ◌⊎◌,
  inl, inr, refl, sym, ap, subst, ◌∙◌, arith,
}
use naglfar.Topology.Components.{deep_equal, deep_equal_iff}
use naglfar.Tiup.Nodes.{is_existed, missing}

module _ {A : Type 0} (same : Discrete A) where
  pub is_existed_iff : (a : A) (others : List A) → (is_existed same a others ≡ true) ↔ In a others
  unfolding is_existed
  is_existed_iff a [] = ground arith
  is_existed_iff a (b ∷ others) = ground (arith, deep_equal_iff same a b, is_existed_iff a others)

  abbrev pub IsPlaced : (A → A) → List A → List A → A → Type 0
  IsPlaced place xs others x = (a : A) × In a xs × (¬ (In a others)) × (x ≡ place a)

  module _ (place : A → A) (others : List A) (x : A) where
    IsPlaced-∷ :
        (a : A) (xs : List A)
        → IsPlaced place (a ∷ xs) others x
          ↔ (((¬ (In a others)) × (x ≡ place a)) ⊎ IsPlaced place xs others x)
    IsPlaced-∷ a xs = (of_first, to_first)
      where
        of_first :
            IsPlaced place (a ∷ xs) others x
            → ((¬ (In a others)) × (x ≡ place a)) ⊎ IsPlaced place xs others x
        of_first (c, inl e, n, p) = inl (subst (λ y. ¬ (In y others)) e n, p ∙ ap place e)
        of_first (c, inr m, n, p) = inr (c, m, n, p)

        to_first :
            ((¬ (In a others)) × (x ≡ place a)) ⊎ IsPlaced place xs others x
            → IsPlaced place (a ∷ xs) others x
        to_first (inl (n, p)) = (a, inl refl, n, p)
        to_first (inr (c, m, n, p)) = (c, inr m, n, p)

    -- What is missing is what stands in the one list and not in the other.
    pub missing_iff :
        (xs : List A) → In x (missing same place xs others) ↔ IsPlaced place xs others x
    unfolding missing
    missing_iff [] = (λ m. absurd m, λ t. absurd t.1)
    missing_iff (a ∷ xs) = ground (arith, IsPlaced-∷ a xs, is_existed_iff a others, missing_iff xs)

  erase : A → List A → List A
  erase a [] = []
  erase a (b ∷ bs) = let rest = erase a bs in if deep_equal same a b then bs else b ∷ rest

  length-erase :
      (a : A) (others : List A) → In a others → length others ≡ suc (length (erase a others))
  unfolding erase
  length-erase a [] m = absurd m
  length-erase a (b ∷ others) m = ground (arith, deep_equal_iff same a b, length-erase a others)

  is_existed-erase :
      (a b : A) (others : List A)
      → b ≢ a
      → is_existed same b (erase a others) ≡ is_existed same b others
  unfolding erase is_existed
  is_existed-erase a b [] h = refl
  is_existed-erase a b (c ∷ others) h =
      ground
        (arith, deep_equal_iff same a c, deep_equal_iff same b c, is_existed-erase a b others h)

  abbrev pub IsDistinct : List A → Type 0
  IsDistinct [] = Unit
  IsDistinct (a ∷ xs) = (¬ (In a xs)) × IsDistinct xs

  missing-erase :
      (place : A → A) (a : A) (xs others : List A)
      → ¬ (In a xs)
      → missing same place xs (erase a others) ≡ missing same place xs others
  unfolding missing
  missing-erase place a [] others h = refl
  missing-erase place a (b ∷ xs) others h =
      let rest = missing-erase place a xs others (λ m. h (inr m)) in
      let stays = is_existed-erase a b others (λ e. h (inl (sym e))) in ground arith

  -- At least as many are missing as the other list is shorter.
  pub length-missing :
      (place : A → A) (xs others : List A)
      → IsDistinct xs
      → length xs ≤ length (missing same place xs others) + length others
  unfolding missing
  length-missing place [] others h = omega arith
  length-missing place (a ∷ xs) others h = elim (Bool-cases (is_existed same a others)) [
    | inl e ↦
        let erased = length-missing place xs (erase a others) h.1 in
        let stays = missing-erase place a xs others h.0 in
        let shorter = length-erase a others ((is_existed_iff a others).0 e) in ground arith
    | inr e ↦ let rest = length-missing place xs others h.1 in ground arith
  ]
