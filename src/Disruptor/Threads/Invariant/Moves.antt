-- ===== src/Disruptor/Threads/Invariant/Moves.antt =====
-- How each step keeps the invariant.
use opencmw_cpp.Base.{ℕ, ◌≤◌, ◌<◌, ◌≡◌, ◌≢◌, ◌⊎◌, inl, inr, sym, subst, arith, ℕ_discrete}
use opencmw_cpp.Disruptor.Sequence.{put, put_self, put_ne}
use opencmw_cpp.Disruptor.Multi.{Memory}
use opencmw_cpp.Disruptor.Threads.{
  Pc, idle, starting, loaded, scanning, picking, found, exchanging, claimed, written,
}
use opencmw_cpp.Disruptor.Threads.Invariant.Defs.{first_held, end_held, Holds, IsKnown, Inv}

pub IsKnown-mono :
    (size dependents : ℕ) (g h : ℕ → ℕ) (p : Pc)
    → ((j : ℕ) → g j ≤ h j)
    → IsKnown size dependents g p
    → IsKnown size dependents h p
IsKnown-mono size dependents g h idle up k = tt
IsKnown-mono size dependents g h (starting call n) up k = k
IsKnown-mono size dependents g h (loaded call n c) up k = k
IsKnown-mono size dependents g h (scanning call n c i least) up k =
    (k.0, λ j lt. omega (arith, up j, k.1 j lt))
IsKnown-mono size dependents g h (picking call n c i best) up k = k
IsKnown-mono size dependents g h (found call n c m) up k =
    (k.0, λ j lt. omega (arith, up j, k.1 j lt))
IsKnown-mono size dependents g h (exchanging call n c) up k =
    (k.0, λ j lt. omega (arith, up j, k.1 j lt))
IsKnown-mono size dependents g h (claimed first end) up k = k
IsKnown-mono size dependents g h (written first end) up k = k

-- Who holds an event behind a step: the publisher that moved, or another one as before.
pub Holds-put :
    (i k e : ℕ) (p : Pc) (pc : ℕ → Pc)
    → Holds (put i p pc k) e
    → ((i ≡ k) × Holds p e) ⊎ ((i ≢ k) × Holds (pc k) e)
Holds-put i k e p pc h = elim (ℕ_discrete i k) [
  | yes same ↦
      inl (same, subst (λ q. Holds q e) (subst (λ x. put i p pc x ≡ p) same (put_self i p pc)) h)
  | no apart ↦ inr (apart, subst (λ q. Holds q e) (put_ne i k p pc apart) h)
]

pub Holds-put_self : (i e : ℕ) (p : Pc) (pc : ℕ → Pc) → Holds p e → Holds (put i p pc i) e
Holds-put_self i e p pc h = subst (λ q. Holds q e) (sym (put_self i p pc)) h

pub Holds-put_ne :
    (i k e : ℕ) (p : Pc) (pc : ℕ → Pc) → i ≢ k → Holds (pc k) e → Holds (put i p pc k) e
Holds-put_ne i k e p pc apart h = subst (λ q. Holds q e) (sym (put_ne i k p pc apart)) h

pub IsKnown-put :
    (size dependents : ℕ) (gating : ℕ → ℕ) (i k : ℕ) (p : Pc) (pc : ℕ → Pc)
    → IsKnown size dependents gating p
    → IsKnown size dependents gating (pc k)
    → IsKnown size dependents gating (put i p pc k)
IsKnown-put size dependents gating i k p pc new old = elim (ℕ_discrete i k) [
  | yes same ↦
      subst (λ q. IsKnown size dependents gating q)
        (sym (subst (λ x. put i p pc x ≡ p) same (put_self i p pc))) new
  | no apart ↦ subst (λ q. IsKnown size dependents gating q) (sym (put_ne i k p pc apart)) old
]

-- a change of place that neither gains nor loses an event
module _ (i : ℕ) (p : Pc) (pc : ℕ → Pc) (same_first : first_held p ≡ first_held (pc i))
    (same_end : end_held p ≡ end_held (pc i)) where
  Holds-quiet : (k e : ℕ) → Holds (put i p pc k) e → Holds (pc k) e
  Holds-quiet k e h = elim (Holds-put i k e p pc h) [
    | inl own ↦
        subst (λ x. Holds (pc x) e) own.0 (omega (arith, own.1.0, own.1.1), omega (arith, own.1.1))
    | inr other ↦ other.1
  ]

  Holds-quiet_back : (k e : ℕ) → Holds (pc k) e → Holds (put i p pc k) e
  Holds-quiet_back k e h = elim (ℕ_discrete i k) [
    | yes same ↦
        subst (λ x. Holds (put i p pc x) e) same
          (Holds-put_self i e p pc (
            let own : Holds (pc i) e = subst (λ x. Holds (pc x) e) (sym same) h in
            (omega (arith, own.0), omega (arith, own.1))))
    | no apart ↦ Holds-put_ne i k e p pc apart h
  ]

module _ {A : Type 0} {size dependents : ℕ} {m : Memory A} {pc : ℕ → Pc} where
  -- a step of a publisher that neither gains nor loses an event
  pub quiet :
      (i : ℕ) (p : Pc) (c : ℕ) (entries : ℕ → A)
      → Inv size dependents m pc
      → first_held p ≡ first_held (pc i)
      → end_held p ≡ end_held (pc i)
      → IsKnown size dependents m.gating p
      → ((j : ℕ) → j < dependents → c ≤ m.gating j)
      → Inv size dependents (record m { cache = c; entries = entries }) (put i p pc)
  quiet i p c entries inv same_first same_end known low = record {
    window = inv.window;
    cached = low;
    known = λ k. IsKnown-put size dependents m.gating i k p pc known (inv.known k);
    held = λ k e h. inv.held k e (Holds-quiet i p pc same_first same_end k e h);
    unread = λ k e j h. inv.unread k e j (Holds-quiet i p pc same_first same_end k e h);
    unique = λ k l e h h'.
        inv.unique k l e (Holds-quiet i p pc same_first same_end k e h)
          (Holds-quiet i p pc same_first same_end l e h');
    slots = λ e h k. elim (inv.slots e h k) [
      | inl stale ↦ inl stale
      | inr (d, l, round, holds) ↦
          inr (d, l, round, Holds-quiet_back i p pc same_first same_end l d holds)
    ];
  }
