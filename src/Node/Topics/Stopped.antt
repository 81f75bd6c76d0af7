-- ===== src/Node/Topics/Stopped.antt =====
-- ros/node.go: the goroutines of the subscribers over many calls and Shutdown.
use rosgo.Prelude.{
  ℕ, suc, ◌+◌, ◌≤◌, ◌≡◌, refl, ap, ◌∙◌, Bool, true, false, List, [], ◌∷◌, ◌++◌, map, Bytes, str_eq,
  arith,
}
use rosgo.Name.{NameResolver}
use rosgo.Node.Topics.Held.{one_if, held}
use rosgo.Node.Topics.Balance.{
  Op, step, run, is_started, is_stopped, starts, stops, Keeps, step-Keeps,
}
use rosgo.Node.Topics.{
  Subscription, Topics, Effect, subscriber_stopped, shutdown_effects, publisher_stopped,
  server_stopped,
}

starts-append : (k : Bytes) (es fs : List Effect) → starts k (es ++ fs) ≡ starts k es + starts k fs
starts-append k [] fs = omega arith
starts-append k (e ∷ es) fs =
    ap (one_if (is_started k e)) (starts-append k es fs)
    ∙ out (is_started k e) (starts k es) (starts k fs)
  where
    out : (b : Bool) (x y : ℕ) → one_if b (x + y) ≡ one_if b x + y
    out true x y = omega arith
    out false x y = refl

stops-append : (k : Bytes) (es fs : List Effect) → stops k (es ++ fs) ≡ stops k es + stops k fs
stops-append k [] fs = omega arith
stops-append k (e ∷ es) fs =
    ap (one_if (is_stopped k e)) (stops-append k es fs)
    ∙ out (is_stopped k e) (stops k es) (stops k fs)
  where
    out : (b : Bool) (x y : ℕ) → one_if b (x + y) ≡ one_if b x + y
    out true x y = omega arith
    out false x y = refl

run-Keeps :
    (k : Bytes) (n : NameResolver) (ops : List Op) (topics : Topics)
    → Keeps k topics (run n ops topics)
unfolding run
run-Keeps k n [] topics l = (refl, l)
run-Keeps k n (op ∷ ops) topics l =
    let s = step n op topics in
    let (e, m) = step-Keeps k n op topics l in
    let (f, o) = run-Keeps k n ops s.0 m in
    (
      rw (starts-append k s.1 (run n ops s.0).1, stops-append k s.1 (run n ops s.0).1)
          (joined (starts k s.1) (starts k (run n ops s.0).1) (held k topics.subscribers)
            (stops k s.1) (stops k (run n ops s.0).1) (held k s.0.subscribers)
            (held k (run n ops s.0).0.subscribers) e f),
      o,
    )
  where
    joined : (a b h c d i j : ℕ) → a + h ≡ c + i → b + i ≡ d + j → (a + b) + h ≡ (c + d) + j
    joined a b h c d i j e f = omega (arith, e, f)

abbrev pub no_topics : Topics
no_topics = record { subscribers = []; publishers = []; servers = [] }

stops-shutdown_effects :
    (k : Bytes) (topics : Topics) → stops k (shutdown_effects topics) ≡ held k topics.subscribers
unfolding shutdown_effects
stops-shutdown_effects k topics = subscribers topics.subscribers
  where
    servers : (ts : List (Bytes × Bytes)) → stops k (map (λ s. server_stopped s.0) ts) ≡ 0
    servers [] = refl
    servers (t ∷ ts) = servers ts

    publishers :
        (ts : List (Bytes × Bytes))
        → stops k
            (map (λ p. publisher_stopped p.0) ts ++ map (λ s. server_stopped s.0) topics.servers)
          ≡ 0
    publishers [] = servers topics.servers
    publishers (t ∷ ts) = publishers ts

    subscribers :
        (ts : List (Bytes × Subscription))
        → stops k (
            map (λ s. subscriber_stopped s.0) ts
            ++ (map (λ p. publisher_stopped p.0) topics.publishers
                ++ map (λ s. server_stopped s.0) topics.servers))
          ≡ held k ts
    subscribers [] = publishers topics.publishers
    subscribers ((t, s) ∷ ts) = ap (one_if (str_eq t k)) (subscribers ts)

-- Whatever calls are made on a node that begins with no topics, and whatever the master answers: of the
-- subscribers of a name, at most one more was started than was told to end, and when the node is shut down
-- after the calls each that was started has been told to end, just once.
pub run-shutdown_effects :
    (n : NameResolver) (ops : List Op) (k : Bytes)
    → (starts k (run n ops no_topics).1 ≤ suc (stops k (run n ops no_topics).1))
      × (starts k (run n ops no_topics).1
          ≡ stops k ((run n ops no_topics).1 ++ shutdown_effects (run n ops no_topics).0))
run-shutdown_effects n ops k =
    let (e, l) = run-Keeps k n ops no_topics (omega arith) in
    let f = stops-append k (run n ops no_topics).1 (shutdown_effects (run n ops no_topics).0) in
    let g = stops-shutdown_effects k (run n ops no_topics).0 in
    (omega (arith, e, l), omega (arith, e, f, g))
