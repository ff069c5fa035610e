-- ===== src/Finance/Automations/Order.antt =====
-- The order that automations are loaded in: by when they were made, then by id.
use cashcove.Base.{
  All-map, ◌≡◌, refl, ap, ◌∙◌, inl, inr, Bool, true, false, ◌&&◌, ◌||◌, none, some, List, [], ◌∷◌,
  Bool-cases, arith, any_b, All, find,
}
use cashcove.Finance.Automations.{Automation}
use cashcove.Finance.Automations.RuleBook.{made_before, insert, ordered}

not_made_before_trans :
    (a b c : Automation)
    → made_before b a ≡ false
    → made_before c b ≡ false
    → made_before c a ≡ false
not_made_before_trans a b c h k = ground arith

made_before-asym : (a b : Automation) → made_before a b ≡ true → made_before b a ≡ false
made_before-asym a b h = ground arith

NoneBefore : Automation → List Automation → Type 0
NoneBefore a rest = All (λ b. made_before b a ≡ false) rest

-- Each is followed by none that was made before it.
pub InOrder : List Automation → Type 0
InOrder [] = Unit
InOrder (a ∷ rest) = NoneBefore a rest × InOrder rest

insert-All :
    (P : Automation → Type 0) (a : Automation) (l : List Automation)
    → P a
    → All P l
    → All P (insert a l)
unfolding insert
insert-All P a [] p h = (p, tt)
insert-All P a (b ∷ rest) p h = elim (Bool-cases (made_before b a)) [
  | inl e ↦ rw e (h.0, insert-All P a rest p h.1)
  | inr e ↦ rw e (p, h)
]

pub ordered-All : (P : Automation → Type 0) (l : List Automation) → All P l → All P (ordered l)
unfolding ordered
ordered-All P [] h = tt
ordered-All P (a ∷ rest) h = insert-All P a (ordered rest) h.0 (ordered-All P rest h.1)

NoneBefore-trans :
    (a b : Automation) (rest : List Automation)
    → made_before b a ≡ false
    → NoneBefore b rest
    → NoneBefore a rest
unfolding NoneBefore
NoneBefore-trans a b [] h k = tt
NoneBefore-trans a b (c ∷ rest) h k =
    (not_made_before_trans a b c h k.0, NoneBefore-trans a b rest h k.1)

insert-InOrder : (a : Automation) (l : List Automation) → InOrder l → InOrder (insert a l)
unfolding insert InOrder NoneBefore
insert-InOrder a [] h = (tt, tt)
insert-InOrder a (b ∷ rest) h = elim (Bool-cases (made_before b a)) [
  | inl e ↦ rw e (
    insert-All (λ c. made_before c b ≡ false) a rest (made_before-asym b a e) h.0,
    insert-InOrder a rest h.1,
  )
  | inr e ↦ rw e ((e, NoneBefore-trans a b rest e h.0), h)
]

pub ordered-InOrder : (l : List Automation) → InOrder (ordered l)
unfolding ordered InOrder
ordered-InOrder [] = tt
ordered-InOrder (a ∷ rest) = insert-InOrder a (ordered rest) (ordered-InOrder rest)

insert-any_b :
    (p : Automation → Bool) (a : Automation) (l : List Automation)
    → any_b p (insert a l) ≡ (p a || any_b p l)
unfolding insert
insert-any_b p a [] = refl
insert-any_b p a (b ∷ rest) = elim (Bool-cases (made_before b a)) [
  | inl e ↦ rw (e, insert-any_b p a rest) (ground arith)
  | inr e ↦ rw e refl
]

pub ordered-any_b : (p : Automation → Bool) (l : List Automation) → any_b p (ordered l) ≡ any_b p l
unfolding ordered
ordered-any_b p [] = refl
ordered-any_b p (a ∷ rest) =
    insert-any_b p a (ordered rest) ∙ ap (λ b. p a || b) (ordered-any_b p rest)

pub find-holds :
    (p : Automation → Bool) (P : Automation → Type 0) (l : List Automation) (x : Automation)
    → find p l ≡ some x
    → All P l
    → P x × (p x ≡ true)
find-holds p P [] x h all = cc
find-holds p P (a ∷ l) x h all = elim (Bool-cases (p a)) [
  | inl e ↦ let same : a ≡ x = cc (rw e at h) in rw (← same) (all.0, e)
  | inr e ↦ find-holds p P l x (rw e at h) all.1
]

-- Of a list in order, nothing that passes was made before the first that does.
pub find-oldest :
    (p : Automation → Bool) (l : List Automation) (x : Automation)
    → InOrder l
    → find p l ≡ some x
    → All (λ y. p y ≡ true → made_before y x ≡ false) l
unfolding InOrder NoneBefore
find-oldest p [] x h f = tt
find-oldest p (a ∷ l) x h f = elim (Bool-cases (p a)) [
  | inl e ↦
      let same : a ≡ x = cc (rw e at f) in
      (
        λ passes. rw (← same) (ground arith),
        All-map (λ y. made_before y a ≡ false) (λ y. p y ≡ true → made_before y x ≡ false) l
            (λ y before passes. rw (← same) before) h.0,
      )
  | inr e ↦ (λ passes. cc, find-oldest p l x h.1 (rw e at f))
]

pub any_b_fails :
    (p : Automation → Bool) (x : Automation) (l : List Automation)
    → All (λ y. p y ≡ true → made_before y x ≡ false) l
    → any_b (λ y. p y && made_before y x) l ≡ false
any_b_fails p x [] h = refl
any_b_fails p x (y ∷ l) h = ground (arith, any_b_fails p x l, h.0)

pub find-none : (p : Automation → Bool) (l : List Automation) → find p l ≡ none → any_b p l ≡ false
find-none p [] h = refl
find-none p (a ∷ l) h = elim (Bool-cases (p a)) [
  | inl e ↦ cc (rw e at h)
  | inr e ↦ rw e (find-none p l (rw e at h))
]
