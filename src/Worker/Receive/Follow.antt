-- ===== src/Worker/Receive/Follow.antt =====
-- A worker follows the broker over any number of subscriptions and ends of subscriptions.
use opencmw_cpp.Base.{
  append-nil, append_assoc, ℕ, zero, suc, ◌≡◌, refl, sym, ap, ◌∙◌, Bytes, Bool, true, false, List,
  [], ◌∷◌, ◌++◌, All, some, Result, err, ok, ◌>>=◌,
}
use opencmw_cpp.Topic.{Topic}
use opencmw_cpp.Broker.{
  Broker, Effect, send, set_filter, unset_filter, rest_response, rest_notification,
}
use opencmw_cpp.Broker.Subscriptions.{count, subscribe, unsubscribe}
use opencmw_cpp.Broker.Subscriptions.Laws.{
  AreCounted, filter_set, filter_unset, subscribe_effect, unsubscribe_effect,
}
use opencmw_cpp.Worker.{BasicWorker}
use opencmw_cpp.Worker.Receive.{receive_subscription_message}
use opencmw_cpp.Worker.Receive.Mirror.{
  IsReadable, frames, receive_frames, Mirrors, after_set, after_unset, receive_frames-set,
  receive_frames-unset, Mirrors-subscribe, Mirrors-unsubscribe,
}

-- What the broker sent between two of its states lets the worker follow it.
abbrev pub IsFollowed : Broker → Broker → BasicWorker → Type 0
IsFollowed b b' w =
    (effects : List Effect) × (w' : BasicWorker) × (b'.sent ≡ b.sent ++ effects)
    × (receive_frames (frames effects) w ≡ ok w')
    × (w'.has_pub_socket ≡ true)
    × Mirrors b' w'

-- a subscription to a topic, or the end of one
abbrev pub change : Bool → Topic → Broker → Broker
change true t b = subscribe t b
change false t b = unsubscribe t b

abbrev pub changes : List (Bool × Topic) → Broker → Broker
changes [] b = b
changes ((subscribes, t) ∷ rest) b = changes rest (change subscribes t b)

after_set_connected :
    (t : Topic) (w : BasicWorker) (r : IsReadable t) (c : w.has_pub_socket ≡ true) (n : ℕ)
    → (after_set t w r c n).has_pub_socket ≡ true
after_set_connected t w r c zero = c
after_set_connected t w r c (suc n) = c

after_unset_connected :
    (t : Topic) (w : BasicWorker) (r : IsReadable t) (c : w.has_pub_socket ≡ true) (n : ℕ)
    → (after_unset t w r c n).has_pub_socket ≡ true
after_unset_connected t w r c zero = c
after_unset_connected t w r c (suc zero) = c
after_unset_connected t w r c (suc (suc n)) = c

change-IsFollowed :
    (subscribes : Bool) (t : Topic) (b : Broker) (w : BasicWorker)
    → IsReadable t
    → w.has_pub_socket ≡ true
    → AreCounted b
    → Mirrors b w
    → IsFollowed b (change subscribes t b) w
change-IsFollowed true t b w r c counted mirrors = (
  filter_set (count t b) t,
  after_set t w r c (count t b),
  (subscribe_effect t b counted).1,
  receive_frames-set t w r c (count t b),
  after_set_connected t w r c (count t b),
  Mirrors-subscribe t w r c b counted mirrors (count t b) refl,
)
change-IsFollowed false t b w r c counted mirrors = (
  filter_unset (count t b) t,
  after_unset t w r c (count t b),
  (unsubscribe_effect t b counted).1,
  receive_frames-unset t w r c (count t b),
  after_unset_connected t w r c (count t b),
  Mirrors-unsubscribe t w r c b counted mirrors (count t b) refl,
)

change-AreCounted :
    (subscribes : Bool) (t : Topic) (b : Broker) → AreCounted b → AreCounted (change subscribes t b)
change-AreCounted true t b counted = (subscribe_effect t b counted).2
change-AreCounted false t b counted = (unsubscribe_effect t b counted).2

frames-append : (xs ys : List Effect) → frames (xs ++ ys) ≡ frames xs ++ frames ys
frames-append [] ys = refl
frames-append (set_filter text ∷ xs) ys = ap (◌∷◌ (1 ∷ text)) (frames-append xs ys)
frames-append (unset_filter text ∷ xs) ys = ap (◌∷◌ (0 ∷ text)) (frames-append xs ys)
frames-append (send socket m ∷ xs) ys = frames-append xs ys
frames-append (rest_response m ∷ xs) ys = frames-append xs ys
frames-append (rest_notification t m ∷ xs) ys = frames-append xs ys

frames_behind :
    (first : Result (BasicWorker × Bool)) (xs ys : List Bytes)
    → ((v : BasicWorker)
        → receive_frames (xs ++ ys) v ≡ (receive_frames xs v >>= receive_frames ys))
    → (first >>= λ r. receive_frames (xs ++ ys) r.0)
      ≡ (first >>= (λ r. receive_frames xs r.0) >>= receive_frames ys)
frames_behind (err e) xs ys h = refl
frames_behind (ok r) xs ys h = h r.0

receive_frames-append :
    (xs ys : List Bytes) (w : BasicWorker)
    → receive_frames (xs ++ ys) w ≡ (receive_frames xs w >>= receive_frames ys)
receive_frames-append [] ys w = refl
receive_frames-append (x ∷ xs) ys w =
    frames_behind (receive_subscription_message (some x) w) xs ys (receive_frames-append xs ys)

-- Whatever subscriptions and ends of subscriptions the broker counts, for topics that are read back
-- from their filters (a valid service name, keys that are not empty and need no escape, and values
-- that are not empty), the filters that it sets and removes let a connected worker follow that had
-- the topics of its service to which the broker counted subscriptions: behind the frames it has
-- again exactly those topics.
pub changes-IsFollowed :
    (ops : List (Bool × Topic)) (b : Broker) (w : BasicWorker)
    → All (λ op. IsReadable op.1) ops
    → w.has_pub_socket ≡ true
    → AreCounted b
    → Mirrors b w
    → IsFollowed b (changes ops b) w
changes-IsFollowed [] b w r c counted mirrors = ([], w, sym (append-nil b.sent), refl, c, mirrors)
changes-IsFollowed ((subscribes, t) ∷ ops) b w r c counted mirrors =
    let (e1, w1, sent1, received1, c1, m1) =
      change-IsFollowed subscribes t b w r.0 c counted mirrors in
    let (e2, w2, sent2, received2, c2, m2) =
      changes-IsFollowed ops (change subscribes t b) w1 r.1 c1
        (change-AreCounted subscribes t b counted) m1 in
    (
      e1 ++ e2,
      w2,
      sent2 ∙ ap (λ s. s ++ e2) sent1 ∙ append_assoc b.sent e1 e2,
      ap (λ fs. receive_frames fs w) (frames-append e1 e2)
          ∙ receive_frames-append (frames e1) (frames e2) w
          ∙ ap (λ r'. r' >>= receive_frames (frames e2)) received1
          ∙ received2,
      c2,
      m2,
    )
