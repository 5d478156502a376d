-- ===== src/Permissions/Listing/Groups.antt =====
-- The grouping of getUserPermissions of src/permissions/permissions.service.ts.
use accurack_software_backen.Common.{
  String, Bool, true, List, [], ◌∷◌, ◌++◌, ◌&&◌, ◌||◌, ◌==◌, ◌≡◌, ap, ◌∙◌, any, any-append, foldl,
  eq_iff, Bool-cases, inl, inr, arith,
}
use accurack_software_backen.Permissions.Tables.{ActionSpec, one, many}
use accurack_software_backen.Permissions.Listing.{
  Item, Group, key_of, same_action, add_action, add_actions, add_item,
}

abbrev pub has_action : String → List ActionSpec → Bool
has_action a l = any (same_action (one a)) l

-- Whether the groups list the action under the key.
abbrev pub in_group : String → String → Group → Bool
in_group k a g = g.key == k && has_action a g.actions

abbrev pub lists : String → String → List Group → Bool
lists k a gs = any (in_group k a) gs

abbrev pub in_item : String → String → Item → Bool
in_item k a i = key_of i == k && has_action a i.actions

-- An action that is known already is the one that is found.
known_action :
    (a : String) (x : ActionSpec) (l : List ActionSpec)
    → any (same_action x) l ≡ true
    → has_action a l ≡ (has_action a l || same_action (one a) x)
known_action a x [] h = ground arith
known_action a (many bs) l h = ground arith
known_action a (one b) (many cs ∷ l) h = known_action a (one b) l h
known_action a (one b) (one c ∷ l) h = elim (Bool-cases (b == c)) [
  | inl e ↦ ground (arith, eq_iff b c, eq_iff a b, eq_iff a c)
  | inr e ↦ ground (arith, known_action a (one b) l)
]

add_action-has :
    (a : String) (l : List ActionSpec) (x : ActionSpec)
    → has_action a (add_action l x) ≡ (has_action a l || same_action (one a) x)
add_action-has a l x = elim (Bool-cases (any (same_action x) l)) [
  | inl h ↦ let hit : add_action l x ≡ l = rw h in ap (has_action a) hit ∙ known_action a x l h
  | inr h ↦
      let miss : add_action l x ≡ l ++ (x ∷ []) = rw h in
      ap (has_action a) miss ∙ any-append (same_action (one a)) l (x ∷ []) ∙ ground arith
]

add_actions-has :
    (a : String) (l xs : List ActionSpec)
    → has_action a (add_actions l xs) ≡ (has_action a l || has_action a xs)
add_actions-has a l [] = ground arith
add_actions-has a l (x ∷ xs) =
    add_actions-has a (add_action l x) xs
    ∙ ap (λ b. b || has_action a xs) (add_action-has a l x)
    ∙ ground arith

add_item-lists :
    (k a : String) (gs : List Group) (i : Item)
    → lists k a (add_item gs i) ≡ (lists k a gs || in_item k a i)
add_item-lists k a [] i =
    let has : has_action a (add_actions [] i.actions) ≡ has_action a i.actions =
      add_actions-has a [] i.actions in
    ground (arith, has)
add_item-lists k a (g ∷ gs) i = elim (Bool-cases (g.key == key_of i)) [
  | inl h ↦
      let hit : add_item (g ∷ gs) i ≡ record g { actions = add_actions g.actions i.actions } ∷ gs =
        rw h in
      let same : g.key ≡ key_of i = (eq_iff g.key (key_of i)).0 h in
      let tests : (g.key == k) ≡ (key_of i == k) = ap (λ x. x == k) same in
      ap (lists k a) hit
      ∙ ap (λ b. (g.key == k && b) || lists k a gs) (add_actions-has a g.actions i.actions)
      ∙ ground (arith, tests)
  | inr h ↦
      let miss : add_item (g ∷ gs) i ≡ g ∷ add_item gs i = rw h in
      ap (lists k a) miss ∙ ap (λ b. in_group k a g || b) (add_item-lists k a gs i) ∙ ground arith
]

-- The groups list an action under a key exactly where an item of the key has it.
pub group_items-lists_from :
    (k a : String) (gs : List Group) (items : List Item)
    → lists k a (foldl add_item gs items) ≡ (lists k a gs || any (in_item k a) items)
group_items-lists_from k a gs [] = ground arith
group_items-lists_from k a gs (i ∷ items) =
    group_items-lists_from k a (add_item gs i) items
    ∙ ap (λ b. b || any (in_item k a) items) (add_item-lists k a gs i)
    ∙ ground arith
