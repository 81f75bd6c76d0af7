-- ===== src/Publisher/Deliveries.antt =====
-- Which messages a session is given.
use rosgo.Prelude.{
  ℕ, ◌≡◌, refl, sym, ap, ◌∙◌, Bool, true, false, ◌||◌, ◌&&◌, not, inl, inr, Bool-cases, List, [],
  ◌∷◌, ◌++◌, Bytes, ◌==◌, ==_iff, if◌then◌else◌, append-nil, arith,
}
use mathlib.Core.Path.{subst}
use rosgo.Publisher.{
  Event, message, session_new, session_error, other_error, listener_error, shutdown, Action,
  deliver, tell_quit, unregister, deliver_all, quit_all, remove_first, turn, run,
}

abbrev pub given : ℕ → List Action → List Bytes
given i [] = []
given i (deliver s m ∷ acts) = if s == i then m ∷ given i acts else given i acts
given i (tell_quit s ∷ acts) = given i acts
given i (unregister ∷ acts) = given i acts

-- What session `i` is to hear, which is listed or not: the messages between its announcement and its
-- report, up to the end of the loop.
abbrev pub heard : ℕ → Bool → List Event → List Bytes
heard i listed [] = []
heard i listed (message m ∷ es) = if listed then m ∷ heard i listed es else heard i listed es
heard i listed (session_new s ∷ es) = heard i (s == i || listed) es
heard i listed (session_error s ∷ es) = heard i (not (s == i) && listed) es
heard i listed (other_error ∷ es) = heard i listed es
heard i listed (listener_error ∷ es) = []
heard i listed (shutdown ∷ es) = []

abbrev pub listed : ℕ → List ℕ → Bool
listed i [] = false
listed i (s ∷ ss) = s == i || listed i ss

abbrev pub Distinct : List ℕ → Type 0
Distinct [] = Unit
Distinct (s ∷ ss) = (listed s ss ≡ false) × Distinct ss

-- Each session is announced once: none of `seen` is.
abbrev pub Fresh : List ℕ → List Event → Type 0
Fresh seen [] = Unit
Fresh seen (session_new s ∷ es) = (listed s seen ≡ false) × Fresh (s ∷ seen) es
Fresh seen (message m ∷ es) = Fresh seen es
Fresh seen (session_error s ∷ es) = Fresh seen es
Fresh seen (other_error ∷ es) = Fresh seen es
Fresh seen (listener_error ∷ es) = Unit
Fresh seen (shutdown ∷ es) = Unit

given-append : (i : ℕ) (acts bs : List Action) → given i (acts ++ bs) ≡ given i acts ++ given i bs
given-append i [] bs = refl
given-append i (deliver s m ∷ acts) bs = ground (arith, given-append i acts bs)
given-append i (tell_quit s ∷ acts) bs = given-append i acts bs
given-append i (unregister ∷ acts) bs = given-append i acts bs

given_none :
    (i : ℕ) (m : Bytes) (ss : List ℕ) → listed i ss ≡ false → given i (deliver_all m ss) ≡ []
given_none i m [] h = refl
given_none i m (s ∷ ss) h = ground (arith, given_none i m ss)

-- One copy for a session of the list.
given-deliver_all :
    (i : ℕ) (m : Bytes) (ss : List ℕ)
    → Distinct ss
    → given i (deliver_all m ss) ≡ (if listed i ss then m ∷ [] else [])
given-deliver_all i m [] d = refl
given-deliver_all i m (s ∷ ss) d = elim (Bool-cases (s == i)) [
  | inl here ↦ rw here (ap (◌∷◌ m) (given_none i m ss (rw (← (==_iff s i).0 here) d.0)))
  | inr other ↦ rw other (given-deliver_all i m ss d.1)
]

given-quit_all : (i : ℕ) (ss : List ℕ) → given i (quit_all ss) ≡ []
given-quit_all i [] = refl
given-quit_all i (s ∷ ss) = given-quit_all i ss

listed-snoc : (i s : ℕ) (ss : List ℕ) → listed i (ss ++ s ∷ []) ≡ (s == i || listed i ss)
listed-snoc i s [] = refl
listed-snoc i s (x ∷ ss) = ground (arith, listed-snoc i s ss)

first_gone :
    (x s i : ℕ) (ss : List ℕ)
    → x ≡ s
    → listed x ss ≡ false
    → listed i ss ≡ (not (s == i) && (x == i || listed i ss))
first_gone x s i ss e h = elim (Bool-cases (s == i)) [
  | inl here ↦ rw here (subst (λ k. listed k ss ≡ false) (e ∙ (==_iff s i).0 here) h)
  | inr other ↦ rw other (rw e (rw other))
]

listed-remove_first :
    (i s : ℕ) (ss : List ℕ)
    → Distinct ss
    → listed i (remove_first s ss) ≡ (not (s == i) && listed i ss)
unfolding remove_first
listed-remove_first i s [] d = ground arith
listed-remove_first i s (x ∷ ss) d = elim (Bool-cases (x == s)) [
  | inl here ↦ rw here (first_gone x s i ss ((==_iff x s).0 here) d.0)
  | inr other ↦ rw other (ground (arith, listed-remove_first i s ss d.1, other))
]

Distinct-snoc : (s : ℕ) (ss : List ℕ) → Distinct ss → listed s ss ≡ false → Distinct (ss ++ s ∷ [])
Distinct-snoc s [] d h = (refl, tt)
Distinct-snoc s (x ∷ ss) d h =
    (ground (arith, listed-snoc x s ss, d.0, h), Distinct-snoc s ss d.1 (ground (arith, h)))

Distinct-remove_first : (s : ℕ) (ss : List ℕ) → Distinct ss → Distinct (remove_first s ss)
unfolding remove_first
Distinct-remove_first s [] d = tt
Distinct-remove_first s (x ∷ ss) d = elim (Bool-cases (x == s)) [
  | inl here ↦ rw here d.1
  | inr other ↦
      rw other (ground (arith, listed-remove_first x s ss d.1, d.0), Distinct-remove_first s ss d.1)
]

unlisted :
    (s : ℕ) (ss seen : List ℕ)
    → ((j : ℕ) → listed j ss ≡ true → listed j seen ≡ true)
    → listed s seen ≡ false
    → listed s ss ≡ false
unlisted s ss seen h f = ground (arith, h s, f)

still_seen :
    (j s : ℕ) (ss seen : List ℕ)
    → (listed j ss ≡ true → listed j seen ≡ true)
    → (s == j || listed j ss) ≡ true
    → (s == j || listed j seen) ≡ true
still_seen j s ss seen h e = ground (arith, h, e)

was_listed : (b l : Bool) → (not b && l) ≡ true → l ≡ true
was_listed b l h = ground (arith, h)

head_of :
    (i : ℕ) (m : Bytes) (b : Bool) (rest : List Bytes)
    → (if b then m ∷ [] else []) ++ rest ≡ (if b then m ∷ rest else rest)
head_of i m true rest = refl
head_of i m false rest = refl

-- A publisher whose sessions are announced once each gives every session the messages that come while
-- it is listed, each once and in their order: from its announcement to its report, or to the end of
-- the loop.
pub run-heard :
    (i : ℕ) (es : List Event) (ss seen : List ℕ)
    → Distinct ss
    → ((j : ℕ) → listed j ss ≡ true → listed j seen ≡ true)
    → Fresh seen es
    → given i (run es ss) ≡ heard i (listed i ss) es
unfolding run turn
run-heard i [] ss seen d h f = refl
run-heard i (message m ∷ es) ss seen d h f =
    given-append i (deliver_all m ss) (run es ss)
    ∙ rw (given-deliver_all i m ss d, run-heard i es ss seen d h f)
        (head_of i m (listed i ss) (heard i (listed i ss) es))
run-heard i (session_new s ∷ es) ss seen d h f =
    run-heard i es (ss ++ s ∷ []) (s ∷ seen) (Distinct-snoc s ss d (unlisted s ss seen h f.0))
      (λ j l. still_seen j s ss seen (h j) (sym (listed-snoc j s ss) ∙ l)) f.1
    ∙ ap (λ b. heard i b es) (listed-snoc i s ss)
run-heard i (session_error s ∷ es) ss seen d h f =
    run-heard i es (remove_first s ss) seen (Distinct-remove_first s ss d)
      (λ j l. h j (was_listed (s == j) (listed j ss) (sym (listed-remove_first j s ss d) ∙ l))) f
    ∙ ap (λ b. heard i b es) (listed-remove_first i s ss d)
run-heard i (other_error ∷ es) ss seen d h f = run-heard i es ss seen d h f
run-heard i (listener_error ∷ es) ss seen d h f = refl
run-heard i (shutdown ∷ es) ss seen d h f =
    ap (given i) (append-nil (quit_all ss)) ∙ given-quit_all i ss
