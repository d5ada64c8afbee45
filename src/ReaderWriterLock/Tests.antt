-- ===== src/ReaderWriterLock/Tests.antt =====
-- A run of two threads at the lock, and the theorem at its end.
use opencmw_cpp.Base.{pos, ◌≡◌, refl, List, [], ◌∷◌}
use opencmw_cpp.ReaderWriterLock.{
  locked, clamp, read, lock, Pc, idle, trying, holding, load, exchange, System, moves, Reach, here,
  next, initial,
}
use opencmw_cpp.ReaderWriterLock.Laws.{IsExclusive, Reach-IsExclusive}

abbrev two : List Pc
two = idle ∷ idle ∷ []

abbrev reading : System
reading = record { counter = locked read (pos 0); threads = holding read ∷ idle ∷ [] }

clamp_zero : clamp read (pos 0) ≡ pos 0
unfolding clamp
clamp_zero = refl

reading_is_reached : Reach (initial two) reading
reading_is_reached =
    next (next here (moves [] idle (idle ∷ []) refl (load {c = lock} {t = read})))
      (moves [] (trying lock read (pos 0)) (idle ∷ []) refl (exchange clamp_zero))

Reach-IsExclusive_example : IsExclusive reading
Reach-IsExclusive_example = Reach-IsExclusive two reading (refl, (refl, tt)) reading_is_reached
