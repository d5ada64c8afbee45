-- ===== src/Broker/Subscriptions/Laws.antt =====
-- The counts of subscriptions, and the sets of the clients that hold them.
use opencmw_cpp.Base.{
  ℕ, suc, zero, ◌+◌, ◌-◌, ◌<◌, ◌≡◌, refl, ap, sym, subst, ◌∙◌, inl, inr, true, false, ◌==◌, List,
  [], ◌∷◌, ◌++◌, append-nil, Option, none, some, ite, find, try_emplace, modify, erase,
  find-modify_self, find-modify_ne, arith, Option-cases, if◌then◌else◌,
}
use opencmw_cpp.Topic.{Topic, to_zmq_topic}
use opencmw_cpp.Broker.{Broker, Effect, set_filter, unset_filter, topic_discrete, emit}
use opencmw_cpp.Broker.Subscriptions.{count_or_zero, count, subscribe, unsubscribe}

-- A topic that is in the map is counted at least once.
pub data AreCounted (b : Broker) : Type 0 where
  are_counted :
      ((t : Topic) (n : ℕ) → find topic_discrete t b.subscribed_topics ≡ some n → 0 < n)
      → AreCounted b

-- what a subscription changes on the socket, by the count before it
abbrev pub filter_set : ℕ → Topic → List Effect
filter_set zero t = set_filter (to_zmq_topic true t) ∷ []
filter_set (suc n) t = []

-- what the end of a subscription changes on the socket, by the count before it
abbrev pub filter_unset : ℕ → Topic → List Effect
filter_unset zero t = []
filter_unset (suc zero) t = unset_filter (to_zmq_topic true t) ∷ []
filter_unset (suc (suc n)) t = []

module _ {K : Type 0} (dec : Discrete K) where
  -- the map after a subscription
  counted_find :
      (k j : K) (m : List (K × ℕ))
      → find dec j (modify dec k suc (try_emplace dec k 0 m))
        ≡ ite (dec k j) (some (suc (count_or_zero (find dec j m)))) (find dec j m)
  unfolding find modify try_emplace
  counted_find k j [] = ground arith
  counted_find k j ((i, w) ∷ m) = ground (arith, counted_find k j m)

  counted_find_self :
      (k : K) (m : List (K × ℕ))
      → find dec k (modify dec k suc (try_emplace dec k 0 m))
        ≡ some (suc (count_or_zero (find dec k m)))
  counted_find_self k m = rw (counted_find k k m) (ground arith)

  count-ite :
      (k j : K) (o : Option ℕ)
      → count_or_zero (ite (dec k j) (some (suc (count_or_zero o))) o)
        ≡ ite (dec k j) (count_or_zero o + 1) (count_or_zero o)
  count-ite k j o = ground arith

  -- the map after a subscription has ended
  lowered_find :
      (k j : K) (m : List (K × ℕ))
      → find dec j (modify dec k (λ n. n - 1) m)
        ≡ elim (find dec j m) [ none ↦ none | some n ↦ ite (dec k j) (some (n - 1)) (some n) ]
  unfolding find modify
  lowered_find k j [] = ground arith
  lowered_find k j ((i, w) ∷ m) = ground (arith, lowered_find k j m)

  erased_find :
      (k j : K) (m : List (K × ℕ)) → find dec j (erase dec k m) ≡ ite (dec k j) none (find dec j m)
  unfolding find erase
  erased_find k j [] = ground arith
  erased_find k j ((i, w) ∷ m) = ground (arith, erased_find k j m)

  count-erased :
      (k j : K) (m : List (K × ℕ)) (n : ℕ)
      → find dec k m ≡ some n
      → n - 1 ≡ 0
      → count_or_zero (find dec j (erase dec k m))
        ≡ ite (dec k j) (count_or_zero (find dec j m) - 1) (count_or_zero (find dec j m))
  count-erased k j m n h z = rw (erased_find k j m) (ground (arith, h, z))

  count-lowered :
      (k j : K) (m : List (K × ℕ))
      → count_or_zero (find dec j (modify dec k (λ n. n - 1) m))
        ≡ ite (dec k j) (count_or_zero (find dec j m) - 1) (count_or_zero (find dec j m))
  count-lowered k j m = rw (lowered_find k j m) (ground arith)

  count-absent :
      (k j : K) (m : List (K × ℕ))
      → find dec k m ≡ none
      → count_or_zero (find dec j m)
        ≡ ite (dec k j) (count_or_zero (find dec j m) - 1) (count_or_zero (find dec j m))
  count-absent k j m h = ground (arith, h)

  positive_set :
      (k j : K) (n : ℕ) (m : List (K × ℕ))
      → ((i : K) (x : ℕ) → find dec i m ≡ some x → 0 < x)
      → find dec j (modify dec k suc (try_emplace dec k 0 m)) ≡ some n
      → 0 < n
  positive_set k j n m h e =
      let counted = sym (counted_find k j m) ∙ e in ground (arith, counted, h j n)

  positive_erased :
      (k j : K) (n : ℕ) (m : List (K × ℕ))
      → ((i : K) (x : ℕ) → find dec i m ≡ some x → 0 < x)
      → find dec j (erase dec k m) ≡ some n
      → 0 < n
  positive_erased k j n m h e =
      let left = sym (erased_find k j m) ∙ e in ground (arith, left, h j n)

  positive_lowered :
      (k j : K) (x n : ℕ) (m : List (K × ℕ))
      → find dec k m ≡ some (suc (suc x))
      → ((i : K) (y : ℕ) → find dec i m ≡ some y → 0 < y)
      → find dec j (modify dec k (λ n. n - 1) m) ≡ some n
      → 0 < n
  positive_lowered k j x n m f h e = elim (dec k j) [
    | yes same ↦
        let found : find dec k (modify dec k (λ n. n - 1) m) ≡ some n =
          subst (λ (i : K). find dec i (modify dec k (λ n. n - 1) m) ≡ some n) (sym same) e in
        let lowered = sym (find-modify_self dec k (λ n. n - 1) m) ∙ found in
        ground (arith, lowered, f)
    | no other ↦ h j n (sym (find-modify_ne dec k j (λ n. n - 1) m other) ∙ e)
  ]

not_last : (n : ℕ) → (suc (suc n) - 1 == 0) ≡ false
not_last n = ground arith

subscribe-topics :
    (t : Topic) (b : Broker)
    → (subscribe t b).subscribed_topics
      ≡ modify topic_discrete t suc (try_emplace topic_discrete t 0 b.subscribed_topics)
unfolding subscribe
subscribe-topics t b = ground arith

-- `subscribe` adds one to the count of its topic and leaves the other counts as they are.
count-subscribe :
    (t u : Topic) (b : Broker)
    → count u (subscribe t b) ≡ ite (topic_discrete t u) (count u b + 1) (count u b)
count-subscribe t u b =
    rw (subscribe-topics t b, counted_find topic_discrete t u b.subscribed_topics)
      (count-ite topic_discrete t u (find topic_discrete u b.subscribed_topics))

-- what the test of the new count gives
filter_set-if :
    (n : ℕ) (t : Topic) (b : Broker)
    → (if suc n == 1 then emit (set_filter (to_zmq_topic true t)) b else b).sent
      ≡ b.sent ++ filter_set n t
filter_set-if zero t b = refl
filter_set-if (suc n) t b = ground (arith, append-nil b.sent)

-- `subscribe` sets the filter of its topic on the socket exactly if the topic had no subscription.
subscribe-sent :
    (t : Topic) (b : Broker) → (subscribe t b).sent ≡ b.sent ++ filter_set (count t b) t
unfolding subscribe
subscribe-sent t b =
    rw (counted_find_self topic_discrete t b.subscribed_topics) (filter_set-if (count t b) t _)

-- `unsubscribe` takes one from the count of its topic, if there is one, and leaves the other counts
-- as they are.
count-unsubscribe :
    (t u : Topic) (b : Broker)
    → count u (unsubscribe t b) ≡ ite (topic_discrete t u) (count u b - 1) (count u b)
unfolding unsubscribe
count-unsubscribe t u b = elim (Option-cases (find topic_discrete t b.subscribed_topics)) [
  | inl e ↦ rw (e, unsubscribe) (count-absent topic_discrete t u b.subscribed_topics e)
  | inr (zero, e) ↦
      rw (e, unsubscribe) (count-erased topic_discrete t u b.subscribed_topics zero e refl)
  | inr (suc zero, e) ↦
      rw (e, unsubscribe) (count-erased topic_discrete t u b.subscribed_topics 1 e refl)
  | inr (suc (suc n), e) ↦
      rw (e, unsubscribe, not_last n) (count-lowered topic_discrete t u b.subscribed_topics)
]

-- `unsubscribe` removes the filter of its topic from the socket exactly if the count was one: if
-- every topic in the map is counted at least once.
unsubscribe-sent :
    (t : Topic) (b : Broker)
    → AreCounted b
    → (unsubscribe t b).sent ≡ b.sent ++ filter_unset (count t b) t
unfolding unsubscribe
unsubscribe-sent t b (are_counted h) =
    elim (Option-cases (find topic_discrete t b.subscribed_topics)) [
      | inl e ↦ rw (e, unsubscribe, append-nil b.sent)
      | inr (zero, e) ↦ absurd (omega (arith, h t zero e))
      | inr (suc zero, e) ↦ rw (e, unsubscribe)
      | inr (suc (suc n), e) ↦ rw (e, unsubscribe, not_last n, append-nil b.sent)
    ]

-- `subscribe` keeps every topic in the map counted at least once.
subscribe-AreCounted : (t : Topic) (b : Broker) → AreCounted b → AreCounted (subscribe t b)
subscribe-AreCounted t b (are_counted h) = are_counted (λ u n e.
    positive_set topic_discrete t u n b.subscribed_topics h
      (ap (find topic_discrete u) (sym (subscribe-topics t b)) ∙ e))

-- `unsubscribe` keeps every topic in the map counted at least once.
unsubscribe-AreCounted : (t : Topic) (b : Broker) → AreCounted b → AreCounted (unsubscribe t b)
unfolding unsubscribe
unsubscribe-AreCounted t b (are_counted h) =
    elim (Option-cases (find topic_discrete t b.subscribed_topics)) [
      | inl e ↦ rw (e, unsubscribe) (are_counted h)
      | inr (zero, e) ↦ absurd (omega (arith, h t zero e))
      | inr (suc zero, e) ↦
          rw (e, unsubscribe)
            (are_counted (λ u n k. positive_erased topic_discrete t u n b.subscribed_topics h k))
      | inr (suc (suc x), e) ↦
          rw (e, unsubscribe, not_last x)
            (are_counted
              (λ u n k. positive_lowered topic_discrete t u x n b.subscribed_topics e h k))
    ]

-- In a broker that counts every topic in the map at least once, `subscribe` adds one to the count
-- of its topic and to no other, sets the filter of the topic on the socket exactly if the topic had
-- no subscription, and keeps every topic in the map counted at least once.
pub subscribe_effect :
    (t : Topic) (b : Broker)
    → AreCounted b
    → ((u : Topic) → count u (subscribe t b) ≡ ite (topic_discrete t u) (count u b + 1) (count u b))
      × ((subscribe t b).sent ≡ b.sent ++ filter_set (count t b) t)
      × AreCounted (subscribe t b)
subscribe_effect t b counted =
    (λ u. count-subscribe t u b, subscribe-sent t b, subscribe-AreCounted t b counted)

-- In a broker that counts every topic in the map at least once, `unsubscribe` takes one from the
-- count of its topic, if there is one, and from no other, removes the filter of the topic from the
-- socket exactly if the count was one, and keeps every topic in the map counted at least once.
pub unsubscribe_effect :
    (t : Topic) (b : Broker)
    → AreCounted b
    → ((u : Topic)
        → count u (unsubscribe t b) ≡ ite (topic_discrete t u) (count u b - 1) (count u b))
      × ((unsubscribe t b).sent ≡ b.sent ++ filter_unset (count t b) t)
      × AreCounted (unsubscribe t b)
unsubscribe_effect t b counted =
    (λ u. count-unsubscribe t u b, unsubscribe-sent t b counted, unsubscribe-AreCounted t b counted)

-- In a broker that counts every topic in the map at least once, `subscribe` adds one to the count
-- of its topic and `unsubscribe` takes one from it, if there is one; neither changes another count;
-- the filter of the topic is set on the socket exactly if the topic had no subscription, and removed
-- exactly if the count was one; and every topic in the map is still counted at least once.
pub subscriptions_effect :
    (t : Topic) (b : Broker)
    → AreCounted b
    → ((u : Topic)
        → (count u (subscribe t b) ≡ ite (topic_discrete t u) (count u b + 1) (count u b))
          × (count u (unsubscribe t b) ≡ ite (topic_discrete t u) (count u b - 1) (count u b)))
      × ((subscribe t b).sent ≡ b.sent ++ filter_set (count t b) t)
      × ((unsubscribe t b).sent ≡ b.sent ++ filter_unset (count t b) t)
      × AreCounted (subscribe t b)
      × AreCounted (unsubscribe t b)
subscriptions_effect t b counted = (
  λ u. (count-subscribe t u b, count-unsubscribe t u b),
  subscribe-sent t b,
  unsubscribe-sent t b counted,
  subscribe-AreCounted t b counted,
  unsubscribe-AreCounted t b counted,
)
