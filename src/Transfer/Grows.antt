-- ===== src/Transfer/Grows.antt =====
-- modules/transfer/sender/sender.go: what a push does to the queues of all nodes.
use falcon_plus.Base.{
  ◌≡◌, refl, sym, ap, ◌∙◌, subst, inl, inr, Bool, Option, none, some, List, [], ◌∷◌, ◌++◌, All,
  All-append, Bool-cases, arith,
}
use mathlib.Core.List.{append_assoc}
use falcon_plus.Base.Text.{Text, eq_text, eq_text_iff}
use falcon_plus.Base.Dict.{Dict, get, put, get-put, text_eq}
use falcon_plus.Transfer.Queues.{LimitedList, push_to}

module _ {Q : Type 0 → Type 0} {A : Type 0} (limited : LimitedList Q) where
  -- A queue, if there is one, only gets items of `P` in front.
  abbrev pub GrowsAt : (A → Type 0) → Option (Q A) → Option (Q A) → Type 0
  GrowsAt P none none = Unit {0}
  GrowsAt P (some q) (some q') =
      (added : List A) × (limited.contents q' ≡ added ++ limited.contents q) × All P added
  GrowsAt P _ _ = ⊥

  abbrev pub Grows : (Text → A → Type 0) → Dict Text (Q A) → Dict Text (Q A) → Type 0
  Grows P queues queues' = (node : Text) → GrowsAt (P node) (get node queues) (get node queues')

  pub GrowsAt-refl : (P : A → Type 0) (o : Option (Q A)) → GrowsAt P o o
  GrowsAt-refl P none = tt
  GrowsAt-refl P (some q) = ([], refl, tt)

  pub GrowsAt-trans :
      (P : A → Type 0) (o o' o'' : Option (Q A))
      → GrowsAt P o o'
      → GrowsAt P o' o''
      → GrowsAt P o o''
  GrowsAt-trans P none none none h k = tt
  GrowsAt-trans P none none (some q'') h k = k
  GrowsAt-trans P none (some q') o'' h k = absurd h
  GrowsAt-trans P (some q) none o'' h k = absurd h
  GrowsAt-trans P (some q) (some q') none h k = k
  GrowsAt-trans P (some q) (some q') (some q'') (xs, e, p) (ys, e', p') = (
    ys ++ xs,
    e' ∙ ap (◌++◌ ys) e ∙ sym (append_assoc ys xs (limited.contents q)),
    All-append P ys xs p' p,
  )

  -- What is there stays there.
  pub GrowsAt-some :
      (P : A → Type 0) (o o' : Option (Q A))
      → GrowsAt P o o'
      → (q : Q A) × (o ≡ some q)
      → (q' : Q A) × (o' ≡ some q')
  GrowsAt-some P none o' h (q, e) = absurd (ground arith)
  GrowsAt-some P (some q) none h w = absurd h
  GrowsAt-some P (some q) (some q') h w = (q', refl)

  pub push_front-GrowsAt :
      (P : A → Type 0) (x : A) (q : Q A)
      → P x
      → GrowsAt P (some q) (some (limited.push_front x q).1)
  push_front-GrowsAt P x q p = elim (limited.push_front_law x q) [
    | inl (taken, e) ↦ (x ∷ [], e, (p, tt))
    | inr (refused, e) ↦ ([], e, tt)
  ]

  -- A push to a node that has a queue does not panic, and puts the item there or nowhere.
  pub push_to-Grows :
      (P : Text → A → Type 0) (node : Text) (x : A) (queues : Dict Text (Q A)) (q : Q A)
      → get node queues ≡ some q
      → P node x
      → (r : Bool × Dict Text (Q A)) × (push_to limited node x queues ≡ some r) × Grows P queues r.1
  unfolding push_to
  push_to-Grows P node x queues q h p =
      (((limited.push_front x q).0, put node (limited.push_front x q).1 queues), rw h refl, at_node)
    where
      at_node : Grows P queues (put node (limited.push_front x q).1 queues)
      at_node other =
          rw (get-put node other (limited.push_front x q).1 queues)
            (elim (Bool-cases (eq_text node other)) [
              | inl same ↦ rw same (
                  subst (λ n. GrowsAt (P n) (get n queues) (some (limited.push_front x q).1))
                    ((eq_text_iff node other).0 same)
                    (subst (λ o. GrowsAt (P node) o (some (limited.push_front x q).1)) (sym h)
                      (push_front-GrowsAt (P node) x q p)))
              | inr apart ↦ rw apart (GrowsAt-refl (P other) (get other queues))
            ])
