-- ===== src/Subscriber/Loops.antt =====
-- ros/subscriber.go: the loops over the publishers that are gone and over the new ones, and which publishers
-- are connected behind them.
use rosgo.Prelude.{
  Bool, true, false, ◌&&◌, ◌||◌, not, inl, inr, Bool-cases, ◌≡◌, ◌≢◌, refl, ap, ◌∙◌, List, [], ◌∷◌,
  Bytes, str_eq, str_eq_iff, ok, err, arith,
}
use mathlib.Core.Path.{subst}
use rosgo.Subscriber.{
  Request, failed, unsupported, malformed, tcpros, blocked, member, keys, delete, quit_dead,
  answered, connect_new,
}
use rosgo.Subscriber.Connections.{other_than}
use rosgo.Subscriber.Difference.{Distinct}

-- Every string of one list is in the other.
abbrev pub Within : List Bytes → List Bytes → Type 0
Within xs ys = (k : Bytes) → member k xs ≡ true → member k ys ≡ true

-- A member of a list is another string than one that is no member.
outside :
    (p k : Bytes) (ps : List Bytes) → member p ps ≡ false → member k ps ≡ true → str_eq p k ≡ false
outside p k ps h g = elim (Bool-cases (str_eq p k)) [
  | inl same ↦ absurd (differ (subst (λ x. member x ps ≡ false) ((str_eq_iff p k).0 same) h) g)
  | inr other ↦ other
]
  where
    differ : {b : Bool} → b ≡ false → b ≡ true → ⊥
    differ h g = cc

outside_of :
    (q p : Bytes) (ps : List Bytes) → member q ps ≡ true → member p ps ≡ false → str_eq q p ≡ false
outside_of q p ps h g = elim (Bool-cases (str_eq q p)) [
  | inl same ↦ absurd (differ (subst (λ x. member x ps ≡ true) ((str_eq_iff q p).0 same) h) g)
  | inr other ↦ other
]
  where
    differ : {b : Bool} → b ≡ true → b ≡ false → ⊥
    differ h g = cc

both : (a b c : Bool) → ((a && not b) && not c) ≡ (a && not (b || c))
both a b c = ground arith

without : (a b : Bool) → a ≡ true → b ≡ false → (a && not b) ≡ true
without a b h g = ground (arith, h, g)

behind : (a b : Bool) → b ≡ true → (a || b) ≡ true
behind a b h = ground (arith, h)

not_first : (a b : Bool) → (a || b) ≡ true → a ≡ false → b ≡ true
not_first a b h g = ground (arith, h, g)

front : (a b : Bool) → a ≡ true → (a || b) ≡ true
front a b h = ground (arith, h)

dropped : (a b : Bool) → a ≡ false → (a && b) ≡ false
dropped a b h = ground (arith, h)

kept_or : (a b : Bool) → b ≡ true → (a || (b && not a)) ≡ true
kept_or a b h = ground (arith, h)

was_or : (a b : Bool) → (a || (b && not a)) ≡ true → (b || a) ≡ true
was_or a b h = ground (arith, h)

chain : (a b c d : Bool) → (a ≡ true → (b || c) ≡ true) → (a || d) ≡ true → (b || (c || d)) ≡ true
chain a b c d h g = ground (arith, h, g)

member-delete :
    (k p : Bytes) (m : List (Bytes × Bytes))
    → member k (keys (delete p m)) ≡ (member k (keys m) && not (str_eq p k))
unfolding member delete
member-delete k p [] = refl
member-delete k p ((j, v) ∷ m) = elim (Bool-cases (str_eq j p)) [
  | inl here ↦ rw here (
      member-delete k p m
      ∙ same_key (str_eq j k) (member k (keys m)) (str_eq p k)
          (ap (λ x. str_eq x k) ((str_eq_iff j p).0 here)))
  | inr there ↦ rw there (
      rw (member-delete k p m)
        (other_key (str_eq j k) (member k (keys m)) (str_eq p k) (other_than j k p there)))
]
  where
    same_key : (a b c : Bool) → a ≡ c → (b && not c) ≡ ((a || b) && not c)
    same_key a b c h = ground (arith, h)

    other_key : (a b c : Bool) → (a ≡ true → c ≡ false) → (a || (b && not c)) ≡ ((a || b) && not c)
    other_key a b c h = ground (arith, h)

-- Publishers that are all connected are quit without blocking, and no others.
pub quit_dead-ok :
    (ps : List Bytes) (m : List (Bytes × Bytes))
    → Distinct ps
    → Within ps (keys m)
    → (m' : List (Bytes × Bytes)) × (quit_dead ps m ≡ ok m')
      × ((k : Bytes) → member k (keys m') ≡ (member k (keys m) && not (member k ps)))
unfolding quit_dead member
quit_dead-ok [] m d h = (m, refl, λ k. ground arith)
quit_dead-ok (p ∷ ps) m d h =
    let (m', e, in') = quit_dead-ok ps (delete p m) d.1 (λ k hk.
      member-delete k p m
      ∙ without _ _ (h k (behind (str_eq p k) (member k ps) hk)) (outside p k ps d.0 hk)) in
    (
      m',
      rw (h p (front (str_eq p p) (member p ps) ((str_eq_iff p p).1 refl))) e,
      λ k. in' k ∙ rw (member-delete k p m) (both (member k (keys m)) (str_eq p k) (member k ps)),
    )

answered-ok :
    (r : Request) (p : Bytes) (m : List (Bytes × Bytes))
    → r ≢ malformed
    → (m' : List (Bytes × Bytes)) × (answered r p m ≡ ok m')
      × Within (keys m) (keys m')
      × ((k : Bytes) → member k (keys m') ≡ true → (member k (keys m) || str_eq p k) ≡ true)
unfolding answered member
answered-ok failed p m h = (m, refl, (λ k e. e), λ k e. front _ _ e)
answered-ok unsupported p m h = (m, refl, (λ k e. e), λ k e. front _ _ e)
answered-ok malformed p m h = absurd (h refl)
answered-ok (tcpros uri) p m h = (
  (p, uri) ∷ delete p m,
  refl,
  (λ k e. rw (member-delete k p m) (kept_or (str_eq p k) (member k (keys m)) e)),
  (λ k e. was_or (str_eq p k) (member k (keys m)) (rw (member-delete k p m) at e)),
)

pub connect_new-ok :
    (request : Bytes → Request) (ps : List Bytes) (m : List (Bytes × Bytes))
    → ((k : Bytes) → request k ≢ malformed)
    → (m' : List (Bytes × Bytes)) × (connect_new request ps m ≡ ok m')
      × Within (keys m) (keys m')
      × ((k : Bytes) → member k (keys m') ≡ true → (member k (keys m) || member k ps) ≡ true)
unfolding connect_new member
connect_new-ok request [] m h = (m, refl, (λ k e. e), λ k e. front _ _ e)
connect_new-ok request (p ∷ ps) m h =
    let (m1, e1, in1, out1) = answered-ok (request p) p m (h p) in
    let (m2, e2, in2, out2) = connect_new-ok request ps m1 h in
    (
      m2,
      rw e1 e2,
      (λ k e. in2 k (in1 k e)),
      λ k e.
          chain (member k (keys m1)) (member k (keys m)) (str_eq p k) (member k ps) (out1 k)
            (out2 k e),
    )

pub quit_dead_blocks :
    (p : Bytes) (ps : List Bytes) (m : List (Bytes × Bytes))
    → member p ps ≡ true
    → member p (keys m) ≡ false
    → (q : Bytes) × (quit_dead ps m ≡ err (blocked q))
unfolding quit_dead member
quit_dead_blocks p [] m h g = cc
quit_dead_blocks p (q ∷ ps) m h g = elim (Bool-cases (member q (keys m))) [
  | inr alone ↦ (q, rw alone)
  | inl connected ↦
      let (r, e) =
        quit_dead_blocks p ps (delete q m)
          (not_first (str_eq q p) (member p ps) h (outside_of q p (keys m) connected g))
          (member-delete p q m ∙ dropped (member p (keys m)) (not (str_eq q p)) g) in
      (r, rw connected e)
]
