-- ===== src/Resource/Kept.antt =====
-- The records of all subscribers: what an operation on one subscriber leaves of them
-- (internal/sbi/processor/converged_charging.go).
use mathlib.Core.Path.{subst}
use mathlib.Core.Bool.{true≢false}
use chf.Base.{
  ℕ, suc, ◌≤◌, ◌<◌, ◌≡◌, refl, sym, ap, ◌∙◌, ◌⊎◌, inl, inr, arith, ◌==◌, true, false, List, [], ◌∷◌,
  some, All, Bool-cases,
}
use chf.Base.Decimal.{Text}
use chf.Base.Maps.{text_eq, text_eq→eq, text_eq_refl}
use chf.Record.{ChargingRecord}
use chf.Ue.{ChfUe}
use chf.Resource.{Subscriber, Chf}
use chf.Resource.Volume.{occurs, occurs-append, occurs_fresh}
use chf.Resource.Recorded.{IsKept, grown, grown-IsKept}
use chf.Resource.Store.{update_text, update_text_hit, update_text_miss, put_ue, add_record}

-- No record of the one is a record of the other.
abbrev pub AreApart : Subscriber → Subscriber → Type 0
AreApart ue ue' = (b : ℕ) → (occurs b ue.records ≡ 0) ⊎ (occurs b ue'.records ≡ 0)

-- Every subscriber's records are kept, and two subscribers have no record in common.
pub record AreKept (context : Chf) : Type 0 where
  pub kept : (supi : Text) (ue : Subscriber) → context.ue_pool supi ≡ some ue → IsKept context ue
  pub apart :
      (s t : Text) (ue ue' : Subscriber)
      → text_eq s t ≡ false
      → context.ue_pool s ≡ some ue
      → context.ue_pool t ≡ some ue'
      → AreApart ue ue'

some_same : {A : Type 0} {a b : A} → some a ≡ some b → a ≡ b
some_same h = cc

below_more : (n m : ℕ) (bs : List ℕ) → n ≤ m → All (λ b. b < n) bs → All (λ b. b < m) bs
below_more n m [] l h = tt
below_more n m (b ∷ bs) l (h, hs) = (omega (arith, h, l), below_more n m bs l hs)

pub more-IsKept :
    (context context' : Chf) (ue : Subscriber)
    → context.next ≤ context'.next
    → IsKept context ue
    → IsKept context' ue
more-IsKept context context' ue l k = record {
  once = k.once;
  below = below_more context.next context'.next ue.records l k.below;
}

text_eq_both :
    (supi s t : Text) → text_eq supi s ≡ true → text_eq supi t ≡ true → text_eq s t ≡ true
text_eq_both supi s t p q =
    ap (text_eq s) (sym (sym (text_eq→eq supi s p) ∙ text_eq→eq supi t q)) ∙ text_eq_refl s

swap : {A B : Type 0} → A ⊎ B → B ⊎ A
swap (inl a) = inr a
swap (inr b) = inl b

-- A new state of one subscriber, whose records are apart from those of the others.
pub put-AreKept :
    (context context' : Chf) (supi : Text) (ue : Subscriber)
    → AreKept context
    → context'.ue_pool ≡ update_text context.ue_pool supi (some ue)
    → context.next ≤ context'.next
    → IsKept context' ue
    → ((t : Text) (ue' : Subscriber)
        → text_eq supi t ≡ false
        → context.ue_pool t ≡ some ue'
        → AreApart ue ue')
    → AreKept context'
put-AreKept context context' supi ue k e l ku others = record {
  kept = λ s v h. one s v (Bool-cases (text_eq supi s)) h;
  apart = λ s t v w n h h'.
      two s t v w n (Bool-cases (text_eq supi s)) (Bool-cases (text_eq supi t)) h h';
}
  where
    old :
        (s : Text) (v : Subscriber)
        → text_eq supi s ≡ false
        → context'.ue_pool s ≡ some v
        → context.ue_pool s ≡ some v
    old s v q h =
        sym (update_text_miss context.ue_pool supi s (some ue) q) ∙ ap (λ f. f s) (sym e) ∙ h

    new : (s : Text) (v : Subscriber) → text_eq supi s ≡ true → context'.ue_pool s ≡ some v → ue ≡ v
    new s v q h =
        some_same
          (sym (update_text_hit context.ue_pool supi s (some ue) q) ∙ ap (λ f. f s) (sym e) ∙ h)

    one :
        (s : Text) (v : Subscriber)
        → (text_eq supi s ≡ true) ⊎ (text_eq supi s ≡ false)
        → context'.ue_pool s ≡ some v
        → IsKept context' v
    one s v (inl q) h = subst (IsKept context') (new s v q h) ku
    one s v (inr q) h = more-IsKept context context' v l (k.kept s v (old s v q h))

    two :
        (s t : Text) (v w : Subscriber)
        → text_eq s t ≡ false
        → (text_eq supi s ≡ true) ⊎ (text_eq supi s ≡ false)
        → (text_eq supi t ≡ true) ⊎ (text_eq supi t ≡ false)
        → context'.ue_pool s ≡ some v
        → context'.ue_pool t ≡ some w
        → AreApart v w
    two s t v w n (inl p) (inl q) h h' = absurd (true≢false (sym (text_eq_both supi s t p q) ∙ n))
    two s t v w n (inl p) (inr q) h h' =
        subst (λ u. AreApart u w) (new s v p h) (others t w q (old t w q h'))
    two s t v w n (inr p) (inl q) h h' =
        subst (λ u. AreApart v u) (new t w q h') (λ b. swap (others s v p (old s v p h) b))
    two s t v w n (inr p) (inr q) h h' = k.apart s t v w n (old s v p h) (old t w q h')

pub charged-AreKept :
    (context : Chf) (supi : Text) (ue : Subscriber) (charging : ChfUe)
    → AreKept context
    → context.ue_pool supi ≡ some ue
    → AreKept (put_ue context supi (record ue { charging = charging }))
unfolding put_ue
charged-AreKept context supi ue charging k e =
    let ku = k.kept supi ue e in
    put-AreKept context (put_ue context supi (record ue { charging = charging })) supi
      (record ue { charging = charging }) k refl (omega arith)
      (record { once = ku.once; below = ku.below }) (λ t w n h. k.apart supi t ue w n e h)

grown-AreApart :
    (context : Chf) (ue ue' : Subscriber) (session_id : Text)
    → IsKept context ue'
    → AreApart ue ue'
    → AreApart (grown context ue session_id) ue'
grown-AreApart context ue ue' session_id k apart b = elim (Bool-cases (b == context.next)) [
  | inl e ↦
      let p : context.next ≡ b = ground arith in
      inr (ap (λ c. occurs c ue'.records) (sym p) ∙ occurs_fresh context.next ue'.records k.below)
  | inr e ↦ elim (apart b) [
    | inl h ↦
        let last : occurs b (context.next ∷ []) ≡ 0 = rw e refl in
        inl (omega (arith, occurs-append b ue.records (context.next ∷ [])))
    | inr h ↦ inr h
  ]
]

-- A subscriber with a new record takes the place of the old one.
pub grown-AreKept :
    (context : Chf) (store : ℕ → ChargingRecord) (supi : Text) (ue : Subscriber) (session_id : Text)
    → AreKept context
    → IsKept context ue
    → ((t : Text) (ue' : Subscriber)
        → text_eq supi t ≡ false
        → context.ue_pool t ≡ some ue'
        → AreApart ue ue')
    → AreKept (
        put_ue
          (record context { store = store; next = suc context.next })
          supi
          (grown context ue session_id))
unfolding put_ue add_record
grown-AreKept context store supi ue session_id k ku others =
    let k' = grown-IsKept context ue session_id (context.store 0) ku in
    put-AreKept context _ supi (grown context ue session_id) k refl (omega arith)
      (record { once = k'.once; below = k'.below })
      (λ t w n h. grown-AreApart context ue w session_id (k.kept t w h) (others t w n h))

pub store-AreKept :
    (context : Chf) (store : ℕ → ChargingRecord)
    → AreKept context
    → AreKept (record context { store = store })
store-AreKept context store k = record {
  kept = λ s v h.
      more-IsKept context (record context { store = store }) v (omega arith) (k.kept s v h);
  apart = k.apart;
}
