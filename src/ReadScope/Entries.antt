-- ===== src/ReadScope/Entries.antt =====
-- src/broker/BrokerReadScope.h: entries_, a std::map from paths to entries, as a list in the order
-- of its keys.
use launch_as.Base.{
  ◌≡◌, refl, subst, ◌⊎◌, inl, inr, Bool, true, false, ◌&&◌, ◌||◌, Option, none, some, List, [], ◌∷◌,
  arith, ltb, ◌==◌, if◌then◌else◌, Bool-cases, Wide, any_of, text_eq, text_eq_refl, text_eq_sound,
}
use launch_as.ReadScope.{Entry}

abbrev pub Entries : Type 0
Entries = List (Wide × Entry)

-- `<` on strings
unfoldable pub text_less : Wide → Wide → Bool
text_less a [] = false
text_less [] (y ∷ b) = true
text_less (x ∷ a) (y ∷ b) = ltb x y || (x == y && text_less a b)

unfoldable pub find_entry : Wide → Entries → Option Entry
find_entry path [] = none
find_entry path ((key, entry) ∷ rest) =
    let behind = find_entry path rest in if text_eq path key then some entry else behind

unfoldable pub put_entry : Wide → Entry → Entries → Entries
put_entry path entry [] = (path, entry) ∷ []
put_entry path entry ((key, other) ∷ rest) =
    let behind = put_entry path entry rest in
    if text_eq path key
    then (key, entry) ∷ rest
    else if text_less path key
    then (path, entry) ∷ (key, other) ∷ rest
    else (key, other) ∷ behind

unfoldable pub erase_entry : Wide → Entries → Entries
erase_entry path [] = []
erase_entry path ((key, entry) ∷ rest) =
    let behind = erase_entry path rest in if text_eq path key then behind else (key, entry) ∷ behind

abbrev pub keys : Entries → List Wide
keys [] = []
keys ((key, entry) ∷ rest) = key ∷ keys rest

pub text_eq-cases : (a b : Wide) → ((text_eq a b ≡ true) × (a ≡ b)) ⊎ (text_eq a b ≡ false)
text_eq-cases a b = elim (Bool-cases (text_eq a b)) [
  | inl e ↦ inl (e, text_eq_sound a b e)
  | inr e ↦ inr e
]

pub find_entry-put_entry :
    (path : Wide) (entry : Entry) (entries : Entries)
    → find_entry path (put_entry path entry entries) ≡ some entry
unfolding find_entry put_entry
find_entry-put_entry path entry [] = rw (text_eq_refl path) refl
find_entry-put_entry path entry ((key, other) ∷ rest) =
    ground (arith, text_eq_refl path, find_entry-put_entry path entry rest)

pub find_entry-put_entry_other :
    (path other : Wide) (entry : Entry) (entries : Entries)
    → text_eq path other ≡ false
    → find_entry path (put_entry other entry entries) ≡ find_entry path entries
unfolding find_entry put_entry
find_entry-put_entry_other path other entry [] h = rw h refl
find_entry-put_entry_other path other entry ((key, old) ∷ rest) h = elim (text_eq-cases other key) [
  | inl (same, e) ↦
      let apart : text_eq path key ≡ false = subst (λ k. text_eq path k ≡ false) e h in
      ground (arith, find_entry-put_entry_other path other entry rest h)
  | inr differs ↦ ground (arith, find_entry-put_entry_other path other entry rest h)
]

pub find_entry-erase_entry_other :
    (path other : Wide) (entries : Entries)
    → text_eq path other ≡ false
    → find_entry path (erase_entry other entries) ≡ find_entry path entries
unfolding find_entry erase_entry
find_entry-erase_entry_other path other [] h = refl
find_entry-erase_entry_other path other ((key, old) ∷ rest) h = elim (text_eq-cases other key) [
  | inl (same, e) ↦
      let apart : text_eq path key ≡ false = subst (λ k. text_eq path k ≡ false) e h in
      ground (arith, find_entry-erase_entry_other path other rest h)
  | inr differs ↦ ground (arith, find_entry-erase_entry_other path other rest h)
]

pub find_entry-erase_entry :
    (path : Wide) (entries : Entries) → find_entry path (erase_entry path entries) ≡ none
unfolding find_entry erase_entry
find_entry-erase_entry path [] = refl
find_entry-erase_entry path ((key, e) ∷ rest) = ground (arith, find_entry-erase_entry path rest)

-- Whoever is found has a key.
pub find_entry-keys :
    (path : Wide) (entries : Entries)
    → any_of (text_eq path) (keys entries) ≡ false
    → find_entry path entries ≡ none
unfolding find_entry
find_entry-keys path [] h = refl
find_entry-keys path ((key, e) ∷ rest) h = ground (arith, find_entry-keys path rest)
