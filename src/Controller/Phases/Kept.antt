-- ===== src/Controller/Phases/Kept.antt =====
-- No measurement is lost between the phases.
use reverse_traceroute_publi.Base.{
  String, ◌≡◌, ◌⊎◌, inl, inr, refl, sym, ◌∙◌, Bool, none, some, List, [], ◌∷◌, ◌++◌, if◌then◌else◌,
  lookup, insert, str_eq, str_eq-eq, Bool-cases, Option-cases,
}
use reverse_traceroute_publi.Controller.Phases.{Asked, ask_loop, Progress, answer_loop}

abbrev pub Any : {A : Type 0} → (A → Type 0) → List A → Type 0
Any P [] = ⊥
Any P (x ∷ xs) = P x ⊎ Any P xs

abbrev pub In : {A : Type 0} → A → List A → Type 0
In a = Any (λ x. x ≡ a)

pub Any-map :
    {A : Type 0} {P Q : A → Type 0} (xs : List A) → ((x : A) → P x → Q x) → Any P xs → Any Q xs
Any-map [] f h = elim h [ ]
Any-map (x ∷ xs) f (inl here) = inl (f x here)
Any-map (x ∷ xs) f (inr there) = inr (Any-map xs f there)

pub Any-In : {A : Type 0} {P : A → Type 0} (xs : List A) → Any P xs → (x : A) × P x × In x xs
Any-In [] h = elim h [ ]
Any-In (x ∷ xs) (inl here) = (x, here, inl refl)
Any-In (x ∷ xs) (inr there) = let (y, h, at) = Any-In xs there in (y, h, inr at)

module _ {A : Type 0} (P : A → Type 0) where
  pub Any-front : (xs ys : List A) → Any P xs → Any P (xs ++ ys)
  Any-front [] ys h = elim h [ ]
  Any-front (x ∷ xs) ys (inl here) = inl here
  Any-front (x ∷ xs) ys (inr there) = inr (Any-front xs ys there)

  pub Any-last : (xs : List A) (x : A) → P x → Any P (xs ++ x ∷ [])
  Any-last [] x h = inl h
  Any-last (y ∷ xs) x h = inr (Any-last xs x h)

-- The third list has the entries of both, each in its order.
pub data Merged {A : Type 0} : List A → List A → List A → Type 0 where
  ends : Merged [] [] []
  from_left : {x : A} {xs ys zs : List A} → Merged xs ys zs → Merged (x ∷ xs) ys (x ∷ zs)
  from_right : {y : A} {xs ys zs : List A} → Merged xs ys zs → Merged xs (y ∷ ys) (y ∷ zs)

module _ {A : Type 0} (P : A → Type 0) where
  pub Any-back : (xs ys : List A) → Any P ys → Any P (xs ++ ys)
  Any-back [] ys h = h
  Any-back (x ∷ xs) ys h = inr (Any-back xs ys h)

  pub Any-right : {xs ys zs : List A} → Merged xs ys zs → Any P ys → Any P zs
  Any-right ends h = elim h [ ]
  Any-right (from_left m) h = inr (Any-right m h)
  Any-right (from_right m) (inl here) = inl here
  Any-right (from_right m) (inr there) = inr (Any-right m there)

module _ {M : Type 0} (key : M → String) where
  -- A measurement with the key is left.
  abbrev pub Kept : String → List M → Type 0
  Kept k = Any (λ m. key m ≡ k)

  -- An entry for the key.
  abbrev pub Of : String → String × M → Type 0
  Of k e = (e.0 ≡ k) × (key e.1 ≡ k)

  insert-Of_new :
      (m : M) (entries : List (String × M)) → Any (Of (key m)) (insert entries (key m) m)
  unfolding insert
  insert-Of_new m [] = inl (refl, refl)
  insert-Of_new m ((k, m') ∷ entries) = elim (Bool-cases (str_eq k (key m))) [
    | inl same ↦ rw (insert, same) (inl (refl, refl))
    | inr other ↦ rw (insert, other) (inr (insert-Of_new m entries))
  ]

  insert-Of :
      (m : M) (k : String) (entries : List (String × M))
      → Any (Of k) entries
      → Any (Of k) (insert entries (key m) m)
  unfolding insert
  insert-Of m k [] h = elim h [ ]
  insert-Of m k ((j, m') ∷ entries) (inl (here, of)) = elim (Bool-cases (str_eq j (key m))) [
    | inl same ↦
        rw (insert, same)
          (inl (sym (str_eq-eq j (key m) same) ∙ here, sym (str_eq-eq j (key m) same) ∙ here))
    | inr other ↦ rw (insert, other) (inl (here, of))
  ]
  insert-Of m k ((j, m') ∷ entries) (inr there) = elim (Bool-cases (str_eq j (key m))) [
    | inl same ↦ rw (insert, same) (inr there)
    | inr other ↦ rw (insert, other) (inr (insert-Of m k entries there))
  ]

  abbrev pub Accounted : String → Asked M → Type 0
  Accounted k acc = Any (Of k) acc.by_key ⊎ Kept k acc.remaining

  -- What one round of the loop makes of `acc`.
  step_asked : (M → Bool) → Asked M → M → Asked M
  step_asked may_ask acc m =
      if may_ask m
      then (record acc { by_key = insert acc.by_key (key m) m; asked = acc.asked ++ m ∷ [] })
      else (record acc { remaining = acc.remaining ++ m ∷ [] })

  step_asked-new :
      (may_ask : M → Bool) (acc : Asked M) (m : M) → Accounted (key m) (step_asked may_ask acc m)
  unfolding step_asked
  step_asked-new may_ask acc m = elim (Bool-cases (may_ask m)) [
    | inl asks ↦ rw asks (inl (insert-Of_new m acc.by_key))
    | inr not_asks ↦ rw not_asks (inr (Any-last _ acc.remaining m refl))
  ]

  step_asked-Accounted :
      (may_ask : M → Bool) (acc : Asked M) (m : M) (k : String)
      → Accounted k acc
      → Accounted k (step_asked may_ask acc m)
  unfolding step_asked
  step_asked-Accounted may_ask acc m k (inl asked) = elim (Bool-cases (may_ask m)) [
    | inl asks ↦ rw asks (inl (insert-Of m k acc.by_key asked))
    | inr not_asks ↦ rw not_asks (inl asked)
  ]
  step_asked-Accounted may_ask acc m k (inr kept) = elim (Bool-cases (may_ask m)) [
    | inl asks ↦ rw asks (inr kept)
    | inr not_asks ↦ rw not_asks (inr (Any-front _ acc.remaining _ kept))
  ]

  ask_loop-Accounted :
      (may_ask : M → Bool) (acc : Asked M) (ms : List M) (k : String)
      → Accounted k acc
      → Accounted k (ask_loop key may_ask acc ms)
  unfolding ask_loop step_asked
  ask_loop-Accounted may_ask acc [] k h = h
  ask_loop-Accounted may_ask acc (m ∷ ms) k h =
      ask_loop-Accounted may_ask (step_asked may_ask acc m) ms k
        (step_asked-Accounted may_ask acc m k h)

  -- Each measurement is asked by its key, or left.
  pub ask_loop-Kept :
      (may_ask : M → Bool) (acc : Asked M) (ms : List M) (k : String)
      → Kept k ms
      → Accounted k (ask_loop key may_ask acc ms)
  unfolding ask_loop step_asked
  ask_loop-Kept may_ask acc [] k h = elim h [ ]
  ask_loop-Kept may_ask acc (m ∷ ms) k (inl here) =
      ask_loop-Accounted may_ask (step_asked may_ask acc m) ms k
        (rw (sym here) (step_asked-new may_ask acc m))
  ask_loop-Kept may_ask acc (m ∷ ms) k (inr there) =
      ask_loop-Kept may_ask (step_asked may_ask acc m) ms k there

  module _ {R : Type 0} (found : List (String × R)) where
    -- What was found for the key is sent, or a measurement with it is left.
    abbrev pub Answered : String → Progress M R → Type 0
    Answered k acc = Any (λ p. lookup found k ≡ some p) acc.sent ⊎ Kept k acc.remaining

    step_answered : Progress M R → String → M → Progress M R
    step_answered acc k m = elim (lookup found k) [
      | some p ↦ record acc { sent = acc.sent ++ p ∷ [] }
      | none ↦ record acc { remaining = acc.remaining ++ m ∷ [] }
    ]

    step_missing :
        (acc : Progress M R) (k : String) (m : M)
        → lookup found k ≡ none
        → step_answered acc k m ≡ record acc { remaining = acc.remaining ++ m ∷ [] }
    unfolding step_answered
    step_missing acc k m missing = rw (step_answered, missing) refl

    step_found :
        (acc : Progress M R) (k : String) (m : M) (p : R)
        → lookup found k ≡ some p
        → step_answered acc k m ≡ record acc { sent = acc.sent ++ p ∷ [] }
    unfolding step_answered
    step_found acc k m p is = rw (step_answered, is) refl

    step_answered-new :
        (acc : Progress M R) (k : String) (m : M) → key m ≡ k → Answered k (step_answered acc k m)
    step_answered-new acc k m of = elim (Option-cases (lookup found k)) [
      | inl missing ↦ rw (step_missing acc k m missing) (inr (Any-last _ acc.remaining m of))
      | inr (p, is) ↦ rw (step_found acc k m p is) (inl (Any-last _ acc.sent p is))
    ]

    step_answered-Answered :
        (acc : Progress M R) (j k : String) (m : M)
        → Answered k acc
        → Answered k (step_answered acc j m)
    step_answered-Answered acc j k m (inl sent) = elim (Option-cases (lookup found j)) [
      | inl missing ↦ rw (step_missing acc j m missing) (inl sent)
      | inr (p, is) ↦ rw (step_found acc j m p is) (inl (Any-front _ acc.sent _ sent))
    ]
    step_answered-Answered acc j k m (inr kept) = elim (Option-cases (lookup found j)) [
      | inl missing ↦ rw (step_missing acc j m missing) (inr (Any-front _ acc.remaining _ kept))
      | inr (p, is) ↦ rw (step_found acc j m p is) (inr kept)
    ]

    pub answer_loop-Answered :
        (entries : List (String × M)) (acc : Progress M R) (k : String)
        → Answered k acc
        → Answered k (answer_loop found entries acc)
    unfolding answer_loop step_answered
    answer_loop-Answered [] acc k h = h
    answer_loop-Answered ((j, m) ∷ entries) acc k h =
        answer_loop-Answered entries (step_answered acc j m) k (step_answered-Answered acc j k m h)

    pub answer_loop-Of :
        (entries : List (String × M)) (acc : Progress M R) (k : String)
        → Any (Of k) entries
        → Answered k (answer_loop found entries acc)
    unfolding answer_loop step_answered
    answer_loop-Of [] acc k h = elim h [ ]
    answer_loop-Of ((j, m) ∷ entries) acc k (inl (here, of)) =
        answer_loop-Answered entries (step_answered acc j m) k
          (rw here (step_answered-new acc k m of))
    answer_loop-Of ((j, m) ∷ entries) acc k (inr there) =
        answer_loop-Of entries (step_answered acc j m) k there
