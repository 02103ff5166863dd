-- ===== src/ReadScope/Broadest.antt =====
-- src/broker/BrokerReadScope.cpp: the folders that EnsureRoots keeps.
use launch_as.Base.{
  ◌≡◌, refl, sym, ◌∙◌, subst, inl, inr, Bool, true, ◌||◌, List, [], ◌∷◌, ◌++◌, arith, Bool-cases,
  Wide, any_of, text_eq, starts_with, text_eq_sound,
}
use launch_as.ReadScope.{is_within}
use launch_as.ReadScope.Roots.{insert_text, sort_texts, broadest}

starts_with_trans :
    (a b c : Wide) → starts_with a b ≡ true → starts_with b c ≡ true → starts_with a c ≡ true
starts_with_trans [] b c h k = refl
starts_with_trans (x ∷ a) [] c h k = cc
starts_with_trans (x ∷ a) (y ∷ b) [] h k = cc
starts_with_trans (x ∷ a) (y ∷ b) (z ∷ c) h k = ground (arith, starts_with_trans a b c)

starts_with-append : (a b c : Wide) → starts_with a b ≡ true → starts_with a (b ++ c) ≡ true
starts_with-append [] b c h = refl
starts_with-append (x ∷ a) [] c h = cc
starts_with-append (x ∷ a) (y ∷ b) c h = ground (arith, starts_with-append a b c)

is_within_trans :
    (a b c : Wide) → is_within a b ≡ true → is_within b c ≡ true → is_within a c ≡ true
unfolding is_within
is_within_trans a b c h k = elim (Bool-cases (text_eq a b)) [
  | inl e ↦
      subst (λ t. (text_eq t c || starts_with (c ++ 92 ∷ []) t) ≡ true) (sym (text_eq_sound a b e))
        k
  | inr e ↦
      let far : starts_with (b ++ 92 ∷ []) a ≡ true = ground arith in
      elim (Bool-cases (text_eq b c)) [
        | inl f ↦
            let near : starts_with (c ++ 92 ∷ []) a ≡ true =
              subst (λ t. starts_with (t ++ 92 ∷ []) a ≡ true) (text_eq_sound b c f) far in
            ground arith
        | inr f ↦
            let near =
              starts_with_trans (c ++ 92 ∷ []) (b ++ 92 ∷ []) a
                (starts_with-append (c ++ 92 ∷ []) b (92 ∷ []) (ground arith)) far in
            ground (arith, near)
      ]
]

module _ (path : Wide) where
  abbrev covers : List Wide → Bool
  covers roots = any_of (λ root. is_within path root) roots

  covers-append : (xs ys : List Wide) → covers (xs ++ ys) ≡ (covers xs || covers ys)
  covers-append [] ys = refl
  covers-append (x ∷ xs) ys = ground (arith, covers-append xs ys)

  covers-insert_text :
      (text : Wide) (rest : List Wide)
      → covers (insert_text text rest) ≡ (is_within path text || covers rest)
  unfolding insert_text
  covers-insert_text text [] = refl
  covers-insert_text text (other ∷ rest) = ground (arith, covers-insert_text text rest)

  covers-sort_texts : (roots : List Wide) → covers (sort_texts roots) ≡ covers roots
  unfolding sort_texts
  covers-sort_texts [] = refl
  covers-sort_texts (root ∷ rest) =
      ground (arith, covers-insert_text root (sort_texts rest), covers-sort_texts rest)

  covered :
      (root : Wide) (roots : List Wide)
      → any_of (λ parent. is_within root parent) roots ≡ true
      → is_within path root ≡ true
      → covers roots ≡ true
  covered root [] h k = cc
  covered root (parent ∷ roots) h k =
      ground (arith, is_within_trans path root parent, covered root roots)

  covers-broadest :
      (roots rest : List Wide) → covers (broadest roots rest) ≡ (covers roots || covers rest)
  unfolding broadest
  covers-broadest roots [] = ground arith
  covers-broadest roots (root ∷ rest) = ground (
    arith,
    covered root roots,
    covers-broadest roots rest,
    covers-broadest (roots ++ root ∷ []) rest,
    covers-append roots (root ∷ []),
  )

-- The folders that EnsureRoots keeps contain exactly the paths that the allowed folders contain.
pub broadest-sort_texts :
    (path : Wide) (allowed : List Wide)
    → any_of (λ root. is_within path root) (broadest [] (sort_texts allowed))
      ≡ any_of (λ root. is_within path root) allowed
broadest-sort_texts path allowed =
    covers-broadest path [] (sort_texts allowed) ∙ covers-sort_texts path allowed
