-- ===== src/Disruptor/Threads/Invariant/Defs.antt =====
-- The invariant of the ring buffer's threads.
use opencmw_cpp.Base.{ℕ, ◌+◌, ◌≤◌, ◌<◌, ◌≡◌, ◌⊎◌}
use opencmw_cpp.Disruptor.Slots.{slot, stale_flag}
use opencmw_cpp.Disruptor.Multi.{Memory}
use opencmw_cpp.Disruptor.Threads.{
  Pc, idle, starting, loaded, scanning, picking, found, exchanging, claimed, written,
}

-- the events of a publisher that it has claimed and not published yet
abbrev pub first_held : Pc → ℕ
first_held (claimed first end) = first
first_held (written first end) = first
first_held _ = 0

abbrev pub end_held : Pc → ℕ
end_held (claimed first end) = end
end_held (written first end) = end
end_held _ = 0

abbrev pub Holds : Pc → ℕ → Type 0
Holds p e = (first_held p ≤ e) × (e < end_held p)

-- What the locals of a publisher say about the dependents.
abbrev pub IsKnown : (size dependents : ℕ) → (ℕ → ℕ) → Pc → Type 0
IsKnown size dependents gating idle = Unit
IsKnown size dependents gating (starting call n) = 0 < n
IsKnown size dependents gating (loaded call n c) = 0 < n
IsKnown size dependents gating (scanning call n c i least) =
    (0 < n) × ((j : ℕ) → j < i → least ≤ gating j)
IsKnown size dependents gating (picking call n c i best) =
    (0 < n) × (best < dependents) × (dependents ≤ 1)
IsKnown size dependents gating (found call n c g) =
    (0 < n) × ((j : ℕ) → j < dependents → g ≤ gating j)
IsKnown size dependents gating (exchanging call n c) =
    (0 < n) × ((j : ℕ) → j < dependents → c + n ≤ gating j + size)
IsKnown size dependents gating (claimed first end) = first < end
IsKnown size dependents gating (written first end) = first < end

-- an event of the round before `e`, in the hands of a publisher
abbrev pub IsPending : (size e : ℕ) → (ℕ → Pc) → Type 0
IsPending size e pc = (d : ℕ) × (i : ℕ) × (d + size ≡ e) × Holds (pc i) d

pub record Inv {A : Type 0} (size dependents : ℕ) (m : Memory A) (pc : ℕ → Pc) : Type 0 where
  pub window : (j : ℕ) → j < dependents → (m.gating j ≤ m.cursor) × (m.cursor ≤ m.gating j + size)
  pub cached : (j : ℕ) → j < dependents → m.cache ≤ m.gating j
  pub known : (i : ℕ) → IsKnown size dependents m.gating (pc i)
  pub held :
      (i e : ℕ) → Holds (pc i) e → (e < m.cursor) × (m.flags (slot size e) ≡ stale_flag size e)
  pub unread : (i e j : ℕ) → Holds (pc i) e → j < dependents → m.gating j ≤ e
  pub unique : (i k e : ℕ) → Holds (pc i) e → Holds (pc k) e → i ≡ k
  pub slots :
      (e : ℕ)
      → m.cursor ≤ e
      → e < m.cursor + size
      → (m.flags (slot size e) ≡ stale_flag size e) ⊎ IsPending size e pc
