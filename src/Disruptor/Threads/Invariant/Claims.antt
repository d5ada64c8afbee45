-- ===== src/Disruptor/Threads/Invariant/Claims.antt =====
-- The steps of a claim, of a publication and of a dependent keep the invariant.
use opencmw_cpp.Base.{
  ℕ, suc, ◌+◌, ◌-◌, ◌≤◌, ◌<◌, ◌≡◌, ◌≢◌, ◌⊎◌, inl, inr, sym, ap, ◌∙◌, subst, arith, ℕ_discrete,
  dec_lt, ltb, Bool-cases,
}
use opencmw_cpp.Disruptor.Slots.{
  slot, flag, stale_flag, slot-injective, slot-next_round, slot-add_size, stale_flag-add_size,
  flag-ne-stale_flag,
}
use opencmw_cpp.Disruptor.Sequence.{put, put_self, put_ne}
use opencmw_cpp.Disruptor.Multi.{Memory}
use opencmw_cpp.Disruptor.Threads.{Pc, claimed, written, published, advance}
use opencmw_cpp.Disruptor.Threads.Invariant.Defs.{end_held, Holds, IsKnown, IsPending, Inv}
use opencmw_cpp.Disruptor.Threads.Invariant.Moves.{
  IsKnown-mono, IsKnown-put, Holds-put, Holds-put_self, Holds-put_ne,
}

Holds-published : (first end e : ℕ) → Holds (published first end) e → (first < e) × (e < end)
Holds-published first end e h = elim (Bool-cases (ltb (suc first) end)) [
  | inl more ↦ ground (arith, more)
  | inr last ↦ ground (arith, last)
]

published-Holds : (first end e : ℕ) → first < e → e < end → Holds (published first end) e
published-Holds first end e h k = ground arith

published-IsKnown :
    (size dependents : ℕ) (g : ℕ → ℕ) (first end : ℕ)
    → IsKnown size dependents g (published first end)
published-IsKnown size dependents g first end = elim (Bool-cases (ltb (suc first) end)) [
  | inl more ↦ rw more (ground arith)
  | inr last ↦ rw last tt
]

module _ {A : Type 0} {size dependents : ℕ} {m : Memory A} {pc : ℕ → Pc}
    (inv : Inv size dependents m pc) (i : ℕ) where
  module _ (n : ℕ) (some_dependent : 0 < dependents) (some_event : 0 < n)
      (room : (j : ℕ) → j < dependents → m.cursor + n ≤ m.gating j + size)
      (free : end_held (pc i) ≡ 0) where
    -- An event that fits the ring has a slot that was used for nothing since the round before.
    slot_free :
        (e : ℕ) → m.cursor ≤ e → e < m.cursor + n → m.flags (slot size e) ≡ stale_flag size e
    slot_free e low high =
        let fits = room 0 some_dependent in
        let near = inv.window 0 some_dependent in
        elim (inv.slots e low (omega (arith, near.0))) [
          | inl stale ↦ stale
          | inr (d, l, round, holds) ↦ absurd (omega (arith, inv.unread l d 0 holds some_dependent))
        ]

    pub claim_events :
        Inv size dependents
          (record m { cursor = m.cursor + n })
          (put i (claimed m.cursor (m.cursor + n)) pc)
    claim_events =
        let now : Pc = claimed m.cursor (m.cursor + n) in
        record {
          window = λ j lt. (omega (arith, inv.window j lt), room j lt);
          cached = inv.cached;
          known = λ k. IsKnown-put size dependents m.gating i k now pc (omega arith) (inv.known k);
          held = λ k e h. elim (Holds-put i k e now pc h) [
            | inl own ↦ (own.1.1, slot_free e own.1.0 own.1.1)
            | inr other ↦ (omega (arith, inv.held k e other.1), (inv.held k e other.1).1)
          ];
          unread = λ k e j h lt. elim (Holds-put i k e now pc h) [
            | inl own ↦ omega (arith, inv.window j lt, own.1.0)
            | inr other ↦ inv.unread k e j other.1 lt
          ];
          unique = λ k l e h h'. elim (Holds-put i k e now pc h) [
            | inl own ↦ elim (Holds-put i l e now pc h') [
              | inl own' ↦ sym own.0 ∙ own'.0
              | inr other' ↦ absurd (omega (arith, own.1.0, inv.held l e other'.1))
            ]
            | inr other ↦ elim (Holds-put i l e now pc h') [
              | inl own' ↦ absurd (omega (arith, own'.1.0, inv.held k e other.1))
              | inr other' ↦ inv.unique k l e other.1 other'.1
            ]
          ];
          slots = λ e low high. elim (dec_lt e (m.cursor + size)) [
            | yes old ↦ elim (inv.slots e (omega arith) old) [
              | inl stale ↦ inl stale
              | inr (d, l, round, holds) ↦ inr (
                d,
                l,
                round,
                Holds-put_ne i l d now pc
                    (λ same.
                      absurd (omega (arith, (subst (λ x. Holds (pc x) d) (sym same) holds).1)))
                    holds,
              )
            ]
            | no new ↦ inr (
              e - size,
              i,
              omega arith,
              Holds-put_self i (e - size) now pc (omega arith, omega arith),
            )
          ];
        }

  module _ (first end : ℕ) (at : pc i ≡ written first end) (some_dependent : 0 < dependents)
      (some_event : first < end) where
    owned : (e : ℕ) → first ≤ e → e < end → Holds (pc i) e
    owned e low high = subst (λ q. Holds q e) (sym at) (low, high)

    -- the slots of all other events that are held keep their flags
    flag_kept :
        (k e : ℕ)
        → Holds (pc k) e
        → e ≢ first
        → put (slot size first) (flag size first) m.flags (slot size e) ≡ m.flags (slot size e)
    flag_kept k e holds apart =
        let own = owned first (omega arith) some_event in
        let near = inv.window 0 some_dependent in
        put_ne (slot size first) (slot size e) (flag size first) m.flags (λ same. absurd (
          apart (
            sym (
              slot-injective size first e
                (omega (arith, near.1, inv.unread k e 0 holds some_dependent, inv.held i first own))
                (omega (arith, near.1, inv.unread i first 0 own some_dependent, inv.held k e holds))
                same))))

    -- who holds an event behind the publication held it before, and it is another event
    was_held : (k e : ℕ) → Holds (put i (published first end) pc k) e → Holds (pc k) e × (e ≢ first)
    was_held k e h = elim (Holds-put i k e (published first end) pc h) [
      | inl own ↦
          let after = Holds-published first end e own.1 in
          (
            subst (λ x. Holds (pc x) e) own.0
                (owned e (omega (arith, after)) (omega (arith, after))),
            λ same. omega (arith, after),
          )
      | inr other ↦ (
        other.1,
        λ same. absurd (
            other.0 (
              inv.unique i k first (owned first (omega arith) some_event)
                (subst (λ x. Holds (pc k) x) same other.1))),
      )
    ]

    still_held : (k e : ℕ) → Holds (pc k) e → e ≢ first → Holds (put i (published first end) pc k) e
    still_held k e h apart = elim (ℕ_discrete i k) [
      | yes same ↦
          let own : Holds (written first end) e =
            subst (λ q. Holds q e) at (subst (λ x. Holds (pc x) e) (sym same) h) in
          subst (λ x. Holds (put i (published first end) pc x) e) same
            (Holds-put_self i e (published first end) pc
              (published-Holds first end e (omega (arith, own.0)) (omega (arith, own.1))))
      | no other ↦ Holds-put_ne i k e (published first end) pc other h
    ]

    slot_after :
        (e : ℕ)
        → m.cursor ≤ e
        → e < m.cursor + size
        → (put (slot size first) (flag size first) m.flags (slot size e) ≡ stale_flag size e)
          ⊎ IsPending size e (put i (published first end) pc)
    slot_after e low high =
        let own = owned first (omega arith) some_event in
        let near = inv.window 0 some_dependent in
        let recent = inv.unread i first 0 own some_dependent in
        elim (ℕ_discrete (slot size first) (slot size e)) [
          | yes same ↦
              let round : e ≡ first + size =
                slot-next_round size m.cursor first e (inv.held i first own).0
                  (omega (arith, near, recent)) low high same in
              inl (
                subst (λ x. put (slot size first) (flag size first) m.flags x ≡ stale_flag size e)
                  same
                  (put_self (slot size first) (flag size first) m.flags
                    ∙ sym (stale_flag-add_size size first (omega (arith, low, high)))
                    ∙ ap (stale_flag size) (sym round)))
          | no apart ↦ elim (inv.slots e low high) [
            | inl stale ↦
                inl (put_ne (slot size first) (slot size e) (flag size first) m.flags apart ∙ stale)
            | inr (d, l, round, holds) ↦ inr (
              d,
              l,
              round,
              still_held l d holds (λ is_first. apart (
                  ap (slot size) (sym is_first)
                  ∙ sym (slot-add_size size d)
                  ∙ ap (slot size) round)),
            )
          ]
        ]

    pub publish_event :
        Inv size dependents
          (record m { flags = put (slot size first) (flag size first) m.flags })
          (put i (published first end) pc)
    publish_event = record {
      window = inv.window;
      cached = inv.cached;
      known = λ k.
          IsKnown-put size dependents m.gating i k (published first end) pc
            (published-IsKnown size dependents m.gating first end) (inv.known k);
      held = λ k e h.
          let before = was_held k e h in
          let old = inv.held k e before.0 in (old.0, flag_kept k e before.0 before.1 ∙ old.1);
      unread = λ k e j h. inv.unread k e j (was_held k e h).0;
      unique = λ k l e h h'. inv.unique k l e (was_held k e h).0 (was_held l e h').0;
      slots = λ e low high. slot_after e low high;
    }

module _ {A : Type 0} {size dependents : ℕ} {m : Memory A} {pc : ℕ → Pc}
    (inv : Inv size dependents m pc) (j : ℕ) (claimed_here : m.gating j < m.cursor)
    (available : m.flags (slot size (m.gating j)) ≡ flag size (m.gating j)) where
  grows : (k : ℕ) → m.gating k ≤ (advance j m).gating k
  grows k = elim (ℕ_discrete j k) [
    | yes same ↦
        subst (λ x. m.gating x ≤ (advance j m).gating x) same
          (omega (arith, put_self j (suc (m.gating j)) m.gating))
    | no apart ↦ omega (arith, put_ne j k (suc (m.gating j)) m.gating apart)
  ]

  -- a publisher never holds the event that a dependent finds available
  passed : (i e k : ℕ) → Holds (pc i) e → k < dependents → (advance j m).gating k ≤ e
  passed i e k holds lt = elim (ℕ_discrete j k) [
    | yes same ↦
        subst (λ x. (advance j m).gating x ≤ e) same
          (elim (ℕ_discrete (m.gating j) e) [
            | yes here ↦ absurd (
                flag-ne-stale_flag size (m.gating j) (
                  sym available
                  ∙ subst (λ x. m.flags (slot size x) ≡ stale_flag size x) (sym here)
                      (inv.held i e holds).1))
            | no before ↦ omega (
              arith,
              put_self j (suc (m.gating j)) m.gating,
              subst (λ x. m.gating x ≤ e) (sym same) (inv.unread i e k holds lt),
            )
          ])
    | no apart ↦
        omega (arith, put_ne j k (suc (m.gating j)) m.gating apart, inv.unread i e k holds lt)
  ]

  behind_cursor : (k : ℕ) → k < dependents → (advance j m).gating k ≤ m.cursor
  behind_cursor k lt = elim (ℕ_discrete j k) [
    | yes same ↦
        subst (λ x. (advance j m).gating x ≤ m.cursor) same
          (omega (arith, put_self j (suc (m.gating j)) m.gating))
    | no apart ↦ omega (arith, put_ne j k (suc (m.gating j)) m.gating apart, inv.window k lt)
  ]

  pub read_event : Inv size dependents (advance j m) pc
  read_event = record {
    window = λ k lt. (behind_cursor k lt, omega (arith, grows k, inv.window k lt));
    cached = λ k lt. omega (arith, grows k, inv.cached k lt);
    known =
        λ i. IsKnown-mono size dependents m.gating (advance j m).gating (pc i) grows (inv.known i);
    held = inv.held;
    unread = passed;
    unique = inv.unique;
    slots = inv.slots;
  }
