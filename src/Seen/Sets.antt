-- ===== src/Seen/Sets.antt =====
-- Membership, and the eviction bound, of the anti-replay sets.
use lustro_node_agent.Base.{
  ◌+◌, ◌≤◌, ◌<◌, ◌≡◌, sym, ◌∙◌, true, List, [], ◌∷◌, ◌++◌, arith, ltb, length, length-append, take,
  inl, inr, Bool-cases, not-ltb→le, subst,
}
use lustro_node_agent.Base.Text.{Text, text_eq_refl}
use lustro_node_agent.Base.Value.{Value, str, is_some}
use lustro_node_agent.Base.Result.{ok, >>=-eq-ok, ok-injective}
use lustro_node_agent.Platform.{Platform}
use lustro_node_agent.Seen.{
  same_element, max_seen_entries, evicted_at_once, is_member, add, remove_all, evict, mark,
}

-- What is assumed of the interpreter: an element is found in a set that holds it, and `list(xs)` of a
-- set that is not empty begins with an element of it.
pub record SetLaws (P : Platform) : Type 0 where
  pub same_refl : (v : Value) → same_element P v v ≡ true
  pub order_head :
      (x : Value) (xs : List Value)
      → (y : Value) × (ys before after : List Value) × (P.set_order (x ∷ xs) ≡ y ∷ ys)
        × (x ∷ xs ≡ before ++ y ∷ after)

module _ (P : Platform) where
  is_member-snoc :
      (v w : Value) (xs : List Value)
      → is_member P v xs ≡ true
      → is_member P v (xs ++ w ∷ []) ≡ true
  unfolding is_member
  is_member-snoc v w [] h = cc
  is_member-snoc v w (x ∷ xs) h = ground (arith, is_member-snoc v w xs)

  is_member-snoc_self : (t : Text) (xs : List Value) → is_member P (str t) (xs ++ str t ∷ []) ≡ true
  unfolding is_member
  is_member-snoc_self t [] = rw text_eq_refl
  is_member-snoc_self t (x ∷ xs) = ground (arith, is_member-snoc_self t xs)

  pub add-is_member :
      (t : Text) (xs ys : List Value) → add P (str t) xs ≡ ok ys → is_member P (str t) ys ≡ true
  unfolding add
  add-is_member t xs ys h = elim (Bool-cases (is_member P (str t) xs)) [
    | inl old ↦ rw (← ok-injective h) (rw old old)
    | inr new ↦ rw (← ok-injective h) (rw new (is_member-snoc_self t xs))
  ]

  pub add-keeps :
      (v w : Value) (xs ys : List Value)
      → add P v xs ≡ ok ys
      → is_member P w xs ≡ true
      → is_member P w ys ≡ true
  unfolding add
  add-keeps v w xs ys h m = ground (arith, is_member-snoc w v xs m)

  length-add : (v : Value) (xs ys : List Value) → add P v xs ≡ ok ys → length ys ≤ length xs + 1
  unfolding add
  length-add v xs ys h = ground (arith, length-append xs (v ∷ []))

  evict-eq_self : (xs : List Value) → length xs ≤ max_seen_entries → evict P xs ≡ xs
  unfolding evict
  evict-eq_self xs h = ground arith

  -- Below the limit, a marked id is found afterwards.
  pub mark-is_member :
      (t : Text) (xs ys : List Value)
      → length xs < max_seen_entries
      → mark P (str t) xs ≡ ok ys
      → is_member P (str t) ys ≡ true
  unfolding mark
  mark-is_member t xs ys room h =
      let (zs, added, marked) = >>=-eq-ok (add P (str t) xs) (λ more. ok (evict P more)) h in
      let small : length zs ≤ max_seen_entries = omega (arith, length-add (str t) xs zs added) in
      let same : zs ≡ ys = sym (evict-eq_self zs small) ∙ ok-injective marked in
      rw (← same) (add-is_member t xs zs added)

  -- Below the limit, what a set held it holds after a mark.
  pub mark-keeps :
      (v w : Value) (xs ys : List Value)
      → length xs < max_seen_entries
      → mark P v xs ≡ ok ys
      → is_member P w xs ≡ true
      → is_member P w ys ≡ true
  unfolding mark
  mark-keeps v w xs ys room h m = elim (Bool-cases (is_some v)) [
    | inr missing ↦ ground arith
    | inl here ↦
        let (zs, added, marked) =
          >>=-eq-ok (add P v xs) (λ more. ok (evict P more)) (rw here at h) in
        let small : length zs ≤ max_seen_entries = omega (arith, length-add v xs zs added) in
        let same : zs ≡ ys = sym (evict-eq_self zs small) ∙ ok-injective marked in
        rw (← same) (add-keeps v w xs zs added m)
  ]

  module _ (laws : SetLaws P) where
    length-remove_all : (gone xs : List Value) → length (remove_all P gone xs) ≤ length xs
    unfolding remove_all
    length-remove_all gone [] = omega arith
    length-remove_all gone (x ∷ xs) = ground (arith, length-remove_all gone xs)

    remove_all-shrinks :
        (y : Value) (gone before after : List Value)
        → length (remove_all P (y ∷ gone) (before ++ y ∷ after)) < length (before ++ y ∷ after)
    unfolding remove_all is_member
    remove_all-shrinks y gone [] after =
        rw laws.same_refl (omega (arith, length-remove_all (y ∷ gone) after))
    remove_all-shrinks y gone (x ∷ before) after =
        ground (arith, remove_all-shrinks y gone before after)

    length-remove_all_lt :
        (xs : List Value) (y : Value) (ys before after : List Value)
        → P.set_order xs ≡ y ∷ ys
        → xs ≡ before ++ y ∷ after
        → length (remove_all P (take evicted_at_once (P.set_order xs)) xs) < length xs
    length-remove_all_lt xs y ys before after order split =
        subst (λ l. length (remove_all P (take evicted_at_once l) xs) < length xs) (sym order)
          (subst (λ l. length (remove_all P (y ∷ take 9999 ys) l) < length l) (sym split)
            (remove_all-shrinks y (take 9999 ys) before after))

    length-evict :
        (xs : List Value)
        → length xs ≤ max_seen_entries + 1
        → length (evict P xs) ≤ max_seen_entries
    unfolding evict
    length-evict [] h = omega arith
    length-evict (x ∷ xs) h = elim (Bool-cases (ltb max_seen_entries (length (x ∷ xs)))) [
      | inr few ↦ rw few (not-ltb→le max_seen_entries (length (x ∷ xs)) few)
      | inl many ↦
          let (y, ys, before, after, order, split) = laws.order_head x xs in
          let fewer = length-remove_all_lt (x ∷ xs) y ys before after order split in
          rw many (omega (arith, fewer))
    ]

    -- Under these laws a set within its limit stays within it, whatever is added.
    pub mark_bounded :
        (v : Value) (xs ys : List Value)
        → length xs ≤ max_seen_entries
        → mark P v xs ≡ ok ys
        → length ys ≤ max_seen_entries
    unfolding mark
    mark_bounded v xs ys h e = elim (Bool-cases (is_some v)) [
      | inr missing ↦ let same : xs ≡ ys = ok-injective (rw missing at e) in rw (← same) h
      | inl here ↦
          let (zs, added, marked) =
            >>=-eq-ok (add P v xs) (λ more. ok (evict P more)) (rw here at e) in
          let same : evict P zs ≡ ys = ok-injective marked in
          rw (← same) (length-evict zs (omega (arith, length-add v xs zs added)))
    ]
