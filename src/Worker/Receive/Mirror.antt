-- ===== src/Worker/Receive/Mirror.antt =====
-- The subscriptions that the worker knows of, and those that the broker counts. A filter that the
-- broker sets on its subscription socket reaches the worker as a frame of the byte 1 and the
-- filter, and one that it removes as a frame of the byte 0 and the filter.
use opencmw_cpp.Base.{
  ℕ, zero, suc, ◌≡◌, ◌≢◌, refl, ap, ◌∙◌, Bytes, codes, bytes_eq, ltb, true, List, [], ◌∷◌, ◌++◌,
  All, inl, inr, Bool-cases, is_empty, has_key, has_key-add_key, has_key-remove_key, add_key,
  remove_key, some, append_cons-ne-nil, arith, Result, ok, ◌>>=◌, if◌then◌else◌,
}
use opencmw_cpp.Topic.{
  Topic, is_valid_service_name, to_zmq_topic, from_zmq_topic, append_zmq_params,
}
use opencmw_cpp.Topic.ParamMap.Order.{IsSorted}
use opencmw_cpp.Topic.MdpForm.{AreParams}
use opencmw_cpp.Topic.ZmqForm.{IsPlainParam, from_zmq_topic-to_zmq_topic}
use opencmw_cpp.Broker.{
  Broker, Effect, send, set_filter, unset_filter, rest_response, rest_notification, topic_discrete,
}
use opencmw_cpp.Broker.Subscriptions.{count, subscribe, unsubscribe}
use opencmw_cpp.Broker.Subscriptions.Laws.{
  AreCounted, filter_set, filter_unset, subscribe_effect, unsubscribe_effect,
}
use opencmw_cpp.Worker.{BasicWorker}
use opencmw_cpp.Worker.Receive.{subscription_frame, long_frame, receive_subscription_message}

-- A topic that is read back from its filter.
pub record IsReadable (t : Topic) : Type 0 where
  pub valid : is_valid_service_name t.service ≡ true
  pub sorted : IsSorted t.params
  pub are_params : AreParams t.params
  pub are_plain : All IsPlainParam t.params

-- the frames that reach the worker
abbrev pub frames : List Effect → List Bytes
frames [] = []
frames (set_filter text ∷ effects) = (1 ∷ text) ∷ frames effects
frames (unset_filter text ∷ effects) = (0 ∷ text) ∷ frames effects
frames (send socket m ∷ effects) = frames effects
frames (rest_response m ∷ effects) = frames effects
frames (rest_notification t m ∷ effects) = frames effects

-- the worker behind some frames
abbrev pub receive_frames : List Bytes → BasicWorker → Result BasicWorker
receive_frames [] w = ok w
receive_frames (frame ∷ fs) w =
    receive_subscription_message (some frame) w >>= (λ received. receive_frames fs received.0)

-- The worker has the topics of its service to which the broker counts subscriptions, and no others
-- of its service.
pub record Mirrors (b : Broker) (w : BasicWorker) : Type 0 where
  pub mirrored :
      (u : Topic)
      → bytes_eq u.service w.name ≡ true
      → has_key topic_discrete u w.active_subscriptions ≡ ltb 0 (count u b)

to_zmq_topic-ne-nil : (t : Topic) → to_zmq_topic true t ≢ []
unfolding to_zmq_topic
to_zmq_topic-ne-nil t = elim (Bool-cases (is_empty t.params)) [
  | inl h ↦ rw h (append_cons-ne-nil t.service b'#' [])
  | inr h ↦
      rw h (append_cons-ne-nil (append_zmq_params (t.service ++ codes "?") true t.params) b'#' [])
]

long_frame-cons :
    (c : ℕ) (text : Bytes) (w : BasicWorker)
    → text ≢ []
    → long_frame (c ∷ text) w ≡ subscription_frame c text w
unfolding long_frame
long_frame-cons c [] w h = absurd (h refl)
long_frame-cons c (d ∷ s) w h = refl

receive_connected :
    (frame : Bytes) (w : BasicWorker)
    → w.has_pub_socket ≡ true
    → receive_subscription_message (some frame) w ≡ ok (long_frame frame w)
unfolding receive_subscription_message
receive_connected frame w h = ground (arith, h)

-- what a frame of a topic does to the set
abbrev with_topics : List Topic → BasicWorker → BasicWorker
with_topics topics w = record w { active_subscriptions = topics }

module _ (t : Topic) (w : BasicWorker) (readable : IsReadable t)
    (connected : w.has_pub_socket ≡ true) where
  reads : from_zmq_topic (to_zmq_topic true t) ≡ ok t
  reads =
      from_zmq_topic-to_zmq_topic t readable.valid readable.sorted readable.are_params
        readable.are_plain

  abbrev topics_with : List Topic
  topics_with =
      if bytes_eq t.service w.name
      then add_key topic_discrete t w.active_subscriptions
      else w.active_subscriptions

  abbrev topics_without : List Topic
  topics_without =
      if bytes_eq t.service w.name
      then remove_key topic_discrete t w.active_subscriptions
      else w.active_subscriptions

  receive-subscribes :
      receive_subscription_message (some (1 ∷ to_zmq_topic true t)) w
      ≡ ok (with_topics topics_with w, true)
  unfolding subscription_frame
  receive-subscribes =
      receive_connected (1 ∷ to_zmq_topic true t) w connected
      ∙ ap ok (
          long_frame-cons 1 (to_zmq_topic true t) w (to_zmq_topic-ne-nil t)
          ∙ rw (subscription_frame, reads) (ground arith))

  receive-unsubscribes :
      receive_subscription_message (some (0 ∷ to_zmq_topic true t)) w
      ≡ ok (with_topics topics_without w, true)
  unfolding subscription_frame
  receive-unsubscribes =
      receive_connected (0 ∷ to_zmq_topic true t) w connected
      ∙ ap ok (
          long_frame-cons 0 (to_zmq_topic true t) w (to_zmq_topic-ne-nil t)
          ∙ rw (subscription_frame, reads) (ground arith))

  -- the worker behind the frames, by the count before them
  abbrev pub after_set : ℕ → BasicWorker
  after_set zero = with_topics topics_with w
  after_set (suc n) = w

  abbrev pub after_unset : ℕ → BasicWorker
  after_unset zero = w
  after_unset (suc zero) = with_topics topics_without w
  after_unset (suc (suc n)) = w

  pub receive_frames-set : (n : ℕ) → receive_frames (frames (filter_set n t)) w ≡ ok (after_set n)
  receive_frames-set zero = rw receive-subscribes refl
  receive_frames-set (suc n) = refl

  pub receive_frames-unset :
      (n : ℕ) → receive_frames (frames (filter_unset n t)) w ≡ ok (after_unset n)
  receive_frames-unset zero = refl
  receive_frames-unset (suc zero) = rw receive-unsubscribes refl
  receive_frames-unset (suc (suc n)) = refl

  own_topic :
      (u : Topic) → bytes_eq u.service w.name ≡ true → t ≡ u → bytes_eq t.service w.name ≡ true
  own_topic u own e = rw e own

  module _ (b : Broker) (counted : AreCounted b) (mirrors : Mirrors b w) where
    pub Mirrors-subscribe : (n : ℕ) → count t b ≡ n → Mirrors (subscribe t b) (after_set n)
    Mirrors-subscribe zero e = record {
      mirrored = λ u own. ground (
        arith,
        (subscribe_effect t b counted).0 u,
        mirrors.mirrored u own,
        own_topic u own,
        has_key-add_key topic_discrete t u w.active_subscriptions,
      );
    }
    Mirrors-subscribe (suc n) e = record {
      mirrored = λ u own.
          ground (
            arith,
            (subscribe_effect t b counted).0 u,
            mirrors.mirrored u own,
            ap (λ v. count v b),
          );
    }

    pub Mirrors-unsubscribe : (n : ℕ) → count t b ≡ n → Mirrors (unsubscribe t b) (after_unset n)
    Mirrors-unsubscribe zero e = record {
      mirrored = λ u own. ground (
        arith,
        (unsubscribe_effect t b counted).0 u,
        mirrors.mirrored u own,
        ap (λ v. count v b),
      );
    }
    Mirrors-unsubscribe (suc zero) e = record {
      mirrored = λ u own. ground (
        arith,
        (unsubscribe_effect t b counted).0 u,
        mirrors.mirrored u own,
        own_topic u own,
        has_key-remove_key topic_discrete t u w.active_subscriptions,
      );
    }
    Mirrors-unsubscribe (suc (suc n)) e = record {
      mirrored = λ u own. ground (
        arith,
        (unsubscribe_effect t b counted).0 u,
        mirrors.mirrored u own,
        ap (λ v. count v b),
      );
    }
