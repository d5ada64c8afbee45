-- ===== src/Broker/Subscriptions/Holders.antt =====
-- The clients that hold a subscription.
use opencmw_cpp.Base.{
  ◌≡◌, refl, ap, ◌∙◌, Bytes, bytes_discrete, true, List, [], ◌∷◌, none, some, ite, find,
  try_emplace, modify, erase, add_key, remove_key, is_empty, arith, inl, inr, Option-cases,
  Bool-cases,
}
use opencmw_cpp.Topic.{Topic}
use opencmw_cpp.Broker.{Broker, topic_discrete}
use opencmw_cpp.Broker.Subscriptions.{
  clients_or_none, subscribers, add_subscriber, remove_subscriber,
}

module _ {K : Type 0} (dec : Discrete K) where
  entered_find :
      (k j : K) (f : List Bytes → List Bytes) (m : List (K × List Bytes))
      → clients_or_none (find dec j (modify dec k f (try_emplace dec k [] m)))
        ≡ ite (dec k j) (f (clients_or_none (find dec j m))) (clients_or_none (find dec j m))
  unfolding find modify try_emplace
  entered_find k j f [] = ground arith
  entered_find k j f ((i, w) ∷ m) = ground (arith, entered_find k j f m)

  changed_find :
      (k j : K) (ids left : List Bytes) (m : List (K × List Bytes))
      → find dec k m ≡ some ids
      → clients_or_none (find dec j (modify dec k (λ old. left) m))
        ≡ ite (dec k j) left (clients_or_none (find dec j m))
  unfolding find modify
  changed_find k j ids left [] h = cc
  changed_find k j ids left ((i, w) ∷ m) h = ground (arith, h, changed_find k j ids left m)

  erased_find :
      (k j : K) (m : List (K × List Bytes))
      → clients_or_none (find dec j (erase dec k m))
        ≡ ite (dec k j) [] (clients_or_none (find dec j m))
  unfolding find erase
  erased_find k j [] = ground arith
  erased_find k j ((i, w) ∷ m) = ground (arith, erased_find k j m)

-- A client that is entered for a topic is in its set, and the other sets stay as they are.
subscribers-add_subscriber :
    (t u : Topic) (id : Bytes) (b : Broker)
    → subscribers u (add_subscriber t id b)
      ≡ ite (topic_discrete t u) (add_key bytes_discrete id (subscribers u b)) (subscribers u b)
unfolding add_subscriber
subscribers-add_subscriber t u id b =
    entered_find topic_discrete t u (add_key bytes_discrete id) b.subscribed_clients_by_topic

eq_nil : (ids : List Bytes) → is_empty ids ≡ true → [] ≡ ids
eq_nil [] h = refl
eq_nil (id ∷ ids) h = cc

removed_none :
    {K : Type 0} (dec : Discrete K) (k j : K) (id : Bytes) (m : List (K × List Bytes))
    → find dec k m ≡ none
    → clients_or_none (find dec j m)
      ≡ ite
          (dec k j)
          (remove_key bytes_discrete id (clients_or_none (find dec j m)))
          (clients_or_none (find dec j m))
unfolding remove_key
removed_none dec k j id m h = ground (arith, h)

removed_some :
    {K : Type 0} (dec : Discrete K) (k j : K) (ids : List Bytes) (f : List Bytes → List Bytes)
    (m : List (K × List Bytes))
    → find dec k m ≡ some ids
    → ite (dec k j) (f ids) (clients_or_none (find dec j m))
      ≡ ite (dec k j) (f (clients_or_none (find dec j m))) (clients_or_none (find dec j m))
removed_some dec k j ids f m h = ground (arith, h)

-- A client that is removed from a topic is not in its set, and the other sets stay as they are.
subscribers-remove_subscriber :
    (t u : Topic) (id : Bytes) (b : Broker)
    → subscribers u (remove_subscriber t id b)
      ≡ ite (topic_discrete t u) (remove_key bytes_discrete id (subscribers u b)) (subscribers u b)
unfolding remove_subscriber
subscribers-remove_subscriber t u id b =
    let m = b.subscribed_clients_by_topic in
    elim (Option-cases (find topic_discrete t m)) [
      | inl e ↦ rw (e, remove_subscriber) (removed_none topic_discrete t u id m e)
      | inr (ids, e) ↦ elim (Bool-cases (is_empty (remove_key bytes_discrete id ids))) [
        | inl gone ↦
            rw (e, remove_subscriber, gone)
              (erased_find topic_discrete t u m
                ∙ ap (λ (left : List Bytes). ite (topic_discrete t u) left (subscribers u b))
                    (eq_nil (remove_key bytes_discrete id ids) gone)
                ∙ removed_some topic_discrete t u ids (remove_key bytes_discrete id) m e)
        | inr left ↦
            rw (e, remove_subscriber, left)
              (changed_find topic_discrete t u ids (remove_key bytes_discrete id ids) m e
                ∙ removed_some topic_discrete t u ids (remove_key bytes_discrete id) m e)
      ]
    ]

-- Entering a client for a topic adds it to the set of that topic, and removing it takes it out of
-- that set, also when the topic goes with its last client; the sets of the other topics stay as they
-- are.
pub subscribers_change :
    (t u : Topic) (id : Bytes) (b : Broker)
    → (subscribers u (add_subscriber t id b)
        ≡ ite (topic_discrete t u) (add_key bytes_discrete id (subscribers u b)) (subscribers u b))
      × (subscribers u (remove_subscriber t id b)
          ≡ ite
              (topic_discrete t u)
              (remove_key bytes_discrete id (subscribers u b))
              (subscribers u b))
subscribers_change t u id b =
    (subscribers-add_subscriber t u id b, subscribers-remove_subscriber t u id b)
