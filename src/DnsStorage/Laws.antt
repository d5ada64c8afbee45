-- ===== src/DnsStorage/Laws.antt =====
-- What the storage of the DNS service finds behind its operations.
use opencmw_cpp.Base.{
  ℕ, suc, ◌+◌, ◌<◌, ◌≡◌, refl, sym, ap, ap₂, ◌∙◌, eq_of_bytes_eq, Bool, true, false, not, ◌&&◌,
  ◌||◌, List, [], ◌∷◌, ◌++◌, append_assoc, map, length, length-append, get_or, Option, none, some,
  if◌then◌else◌, arith, ok,
}
use opencmw_cpp.Broker.{set}
use opencmw_cpp.DnsStorage.{
  Rate, nan, rate, rate_eq, is_nan, Entry, entry_eq, filter_matches, StorageEntry, is_active,
  is_expired, hour, new_entry, invalidate, place, add_entry, add_entries, deleted_by, kept_by,
  delete_entries, FlatEntryList, flat, to_entries, rows, row, columns_agree, load, save, stamped,
  handle_dns,
}

-- The rate as a rate that is a number, whatever it is: what no rate was is a number of its own.
abbrev ranked : Rate → Rate
ranked nan = rate 0
ranked (rate n) = rate (suc n)

-- Whether two entries have the same fields, also where they have no rate. The code's own test finds
-- an entry without a rate different from every entry.
abbrev pub identical : Entry → Entry → Bool
identical a b =
    entry_eq (record a { signal_rate = ranked a.signal_rate })
      (record b { signal_rate = ranked b.signal_rate })

ranked-eq : (a b : Rate) → rate_eq (ranked a) (ranked b) ≡ true → a ≡ b
unfolding rate_eq
ranked-eq nan nan h = refl
ranked-eq nan (rate y) h = ground arith
ranked-eq (rate x) nan h = ground arith
ranked-eq (rate x) (rate y) h = ground arith

eq_of_identical : (a b : Entry) → identical a b ≡ true → a ≡ b
unfolding entry_eq
eq_of_identical a b h = ground (
  arith,
  eq_of_bytes_eq a.protocol b.protocol,
  eq_of_bytes_eq a.hostname b.hostname,
  eq_of_bytes_eq a.service_name b.service_name,
  eq_of_bytes_eq a.service_type b.service_type,
  eq_of_bytes_eq a.signal_name b.signal_name,
  eq_of_bytes_eq a.signal_unit b.signal_unit,
  ranked-eq a.signal_rate b.signal_rate,
  eq_of_bytes_eq a.signal_type b.signal_type,
)

rate_eq-ranked : (a b : Rate) → rate_eq a b ≡ (rate_eq (ranked a) (ranked b) && not (is_nan b))
unfolding rate_eq
rate_eq-ranked nan nan = refl
rate_eq-ranked nan (rate y) = ground arith
rate_eq-ranked (rate x) nan = ground arith
rate_eq-ranked (rate x) (rate y) = ground arith

-- The code's test is the identity of entries with a rate.
entry_eq-identical : (a b : Entry) → entry_eq a b ≡ (identical a b && not (is_nan b.signal_rate))
unfolding entry_eq
entry_eq-identical a b = ground (arith, rate_eq-ranked a.signal_rate b.signal_rate)

same_test : (e x entry : Entry) → identical e x ≡ true → entry_eq e entry ≡ entry_eq x entry
same_test e x entry h = ap (λ (a : Entry). entry_eq a entry) (eq_of_identical e x h)

identical-swap : (a b : Entry) → identical a b ≡ true → identical b a ≡ true
identical-swap a b h =
    ap (identical b) (eq_of_identical a b h)
    ∙ sym (ap (λ (x : Entry). identical x b) (eq_of_identical a b h))
    ∙ h

identical_comm : (a b : Entry) → identical a b ≡ identical b a
identical_comm a b = ground (arith, identical-swap a b, identical-swap b a)

-- how often an entry is among the active ones
abbrev pub active_copies : ℕ → Entry → List StorageEntry → ℕ
active_copies now x [] = 0
active_copies now x (e ∷ es) =
    let rest = active_copies now x es in
    if is_active now e.ttl && identical e.entry x then 1 + rest else rest

active_copies-invalidate :
    (now : ℕ) (x entry : Entry) (es : List StorageEntry)
    → active_copies now x (invalidate now entry es)
      ≡ (if entry_eq x entry then 0 else active_copies now x es)
unfolding invalidate
active_copies-invalidate now x entry [] = ground arith
active_copies-invalidate now x entry (e ∷ es) =
    ground (arith, same_test e.entry x entry, active_copies-invalidate now x entry es)

expired_not_active :
    (now : ℕ) (ttl : Option ℕ) → is_expired now ttl ≡ true → is_active now ttl ≡ false
expired_not_active now none h = refl
expired_not_active now (some ttl) h = ground arith

active_copies-place :
    (now : ℕ) (x : Entry) (fresh : StorageEntry) (es : List StorageEntry)
    → active_copies now x (place now fresh es)
      ≡ (if is_active now fresh.ttl && identical fresh.entry x then 1 else 0)
        + active_copies now x es
unfolding place
active_copies-place now x fresh [] = ground arith
active_copies-place now x fresh (e ∷ es) =
    ground (arith, expired_not_active now e.ttl, active_copies-place now x fresh es)

-- Behind `addEntry`, the new entry is active once, or once more than before if it has no rate, and
-- every other as often as before, if the new entry's hour is not over.
pub active_copies-add_entry :
    (now created : ℕ) (entry x : Entry) (es : List StorageEntry)
    → now < created + hour
    → active_copies now x (add_entry now created entry es) ≡ (
        if identical x entry
        then (if is_nan entry.signal_rate then 1 + active_copies now x es else 1)
        else active_copies now x es)
unfolding add_entry
active_copies-add_entry now created entry x es h = ground (
  arith,
  active_copies-place now x (new_entry created entry) (invalidate now entry es),
  active_copies-invalidate now x entry es,
  entry_eq-identical x entry,
  identical_comm entry x,
)

-- how often an entry is in a list
abbrev pub copies : Entry → List Entry → ℕ
copies x [] = 0
copies x (e ∷ es) = let rest = copies x es in if identical e x then 1 + rest else rest

-- whether one of the filters matches an entry
abbrev pub any_filter : List Entry → Entry → Bool
any_filter [] entry = false
any_filter (filter ∷ filters) entry = filter_matches filter entry || any_filter filters entry

abbrev pub unmatched_by : List Entry → List StorageEntry → List StorageEntry
unmatched_by filters [] = []
unmatched_by filters (e ∷ es) =
    let rest = unmatched_by filters es in if any_filter filters e.entry then rest else e ∷ rest

unmatched_by-nil : (es : List StorageEntry) → unmatched_by [] es ≡ es
unmatched_by-nil [] = refl
unmatched_by-nil (e ∷ es) = ap (◌∷◌ e) (unmatched_by-nil es)

unmatched_by-kept_by :
    (filter : Entry) (filters : List Entry) (es : List StorageEntry)
    → unmatched_by filters (kept_by filter es) ≡ unmatched_by (filter ∷ filters) es
unfolding kept_by
unmatched_by-kept_by filter filters [] = refl
unmatched_by-kept_by filter filters (e ∷ es) =
    ground (arith, unmatched_by-kept_by filter filters es)

length-deleted_by :
    (filter : Entry) (es : List StorageEntry)
    → length (deleted_by filter es) + length (kept_by filter es) ≡ length es
unfolding deleted_by kept_by
length-deleted_by filter [] = omega arith
length-deleted_by filter (e ∷ es) = ground (arith, length-deleted_by filter es)

-- `deleteEntries` keeps exactly the entries that no filter matches, in their order, and returns as
-- many entries as it deletes.
pub delete_entries-unmatched :
    (filters : List Entry) (es : List StorageEntry)
    → ((delete_entries filters es).0 ≡ unmatched_by filters es)
      × (length (delete_entries filters es).1 + length (delete_entries filters es).0 ≡ length es)
unfolding delete_entries
delete_entries-unmatched [] es = (sym (unmatched_by-nil es), omega arith)
delete_entries-unmatched (filter ∷ filters) es =
    let (left, size) = delete_entries-unmatched filters (kept_by filter es) in
    (
      left ∙ unmatched_by-kept_by filter filters es,
      omega (
        arith,
        size,
        length-deleted_by filter es,
        length-append (deleted_by filter es) (delete_entries filters (kept_by filter es)).1,
      ),
    )

module _ {A : Type 0} (column : Entry → A) where
  get_or-column :
      (front : List Entry) (e : Entry) (es : List Entry) (d : A)
      → get_or (map column (front ++ e ∷ es)) (length front) d ≡ column e
  get_or-column [] e es d = refl
  get_or-column (x ∷ front) e es d = get_or-column front e es d

  length-column : (es : List Entry) → length (map column es) ≡ length es
  length-column [] = refl
  length-column (e ∷ es) = ap suc (length-column es)

row-flat :
    (front : List Entry) (e : Entry) (es : List Entry)
    → row (flat (front ++ e ∷ es)) (length front) ≡ e
unfolding flat
row-flat front e es = rw (
  get_or-column (λ (x : Entry). x.protocol) front e es [],
  get_or-column (λ (x : Entry). x.hostname) front e es [],
  get_or-column (λ (x : Entry). x.port) front e es 0,
  get_or-column (λ (x : Entry). x.service_name) front e es [],
  get_or-column (λ (x : Entry). x.service_type) front e es [],
  get_or-column (λ (x : Entry). x.signal_name) front e es [],
  get_or-column (λ (x : Entry). x.signal_unit) front e es [],
  get_or-column (λ (x : Entry). x.signal_rate) front e es nan,
  get_or-column (λ (x : Entry). x.signal_type) front e es [],
)

rows-flat : (front es : List Entry) → rows (length es) (length front) (flat (front ++ es)) ≡ es
unfolding rows
rows-flat front [] = refl
rows-flat front (e ∷ es) = ap₂ ◌∷◌ (row-flat front e es) (
    ap₂ (λ (n : ℕ) (all : List Entry). rows (length es) n (flat all))
      (sym (length-append front (e ∷ []))) (sym (append_assoc front (e ∷ []) es))
    ∙ rows-flat (front ++ e ∷ []) es)

columns_agree-flat : (es : List Entry) → columns_agree (flat es) ≡ true
unfolding columns_agree flat
columns_agree-flat es =
    rw
      (
        length-column (λ (x : Entry). x.protocol) es,
        length-column (λ (x : Entry). x.hostname) es,
        length-column (λ (x : Entry). x.port) es,
        length-column (λ (x : Entry). x.service_name) es,
        length-column (λ (x : Entry). x.service_type) es,
        length-column (λ (x : Entry). x.signal_name) es,
        length-column (λ (x : Entry). x.signal_unit) es,
        length-column (λ (x : Entry). x.signal_rate) es,
        length-column (λ (x : Entry). x.signal_type) es,
      )
      (ground arith)

flat_size : (es : List Entry) → length (flat es).protocol ≡ length es
unfolding flat
flat_size es = length-column (λ (x : Entry). x.protocol) es

to_entries-rows :
    (f : FlatEntryList) → columns_agree f ≡ true → to_entries f ≡ ok (rows (length f.protocol) 0 f)
unfolding to_entries
to_entries-rows f h = rw h refl

-- `toEntries` gives back the entries of which a flat list was made.
pub to_entries-flat : (es : List Entry) → to_entries (flat es) ≡ ok es
to_entries-flat es =
    to_entries-rows (flat es) (columns_agree-flat es)
    ∙ ap ok (ap (λ (n : ℕ). rows n 0 (flat es)) (flat_size es) ∙ rows-flat [] es)

-- The flat list of entries that a storage saves is loaded again by an empty storage: every entry in
-- its order and with a fresh hour, also those that had expired.
pub load-save :
    (now : ℕ) (es : List StorageEntry)
    → load now (save es) [] ≡ ok (map (λ (e : StorageEntry). new_entry now e.entry) es)
unfolding load save
load-save now es = rw (to_entries-flat (map (λ (e : StorageEntry). e.entry) es)) (ap ok (fresh es))
  where
    fresh :
        (es : List StorageEntry)
        → map (new_entry now) (map (λ (e : StorageEntry). e.entry) es)
          ≡ map (λ (e : StorageEntry). new_entry now e.entry) es
    fresh [] = refl
    fresh (e ∷ es) = ap (◌∷◌ (new_entry now e.entry)) (fresh es)

-- A call that registers entries, and the answer to it.
pub handle_dns-registers :
    (filter : Entry) (new : List Entry) (now : ℕ) (clock : ℕ → ℕ × ℕ) (es : List StorageEntry)
    → handle_dns set false filter (flat new) now clock es
      ≡ ok (add_entries (stamped clock 0 new) es, flat new)
unfolding handle_dns
handle_dns-registers filter new now clock es = rw (to_entries-flat new) refl

-- A call that unregisters entries takes them as filters: it leaves exactly the entries that none of
-- them matches, in their order, and answers with as many entries as it deletes.
pub handle_dns-unregisters :
    (filter : Entry) (filters : List Entry) (now : ℕ) (clock : ℕ → ℕ × ℕ) (es : List StorageEntry)
    → (deleted : List Entry) × (handle_dns set true filter (flat filters) now clock es
        ≡ ok (unmatched_by filters es, flat deleted))
      × (length deleted + length (unmatched_by filters es) ≡ length es)
unfolding handle_dns
handle_dns-unregisters filter filters now clock es =
    let (left, size) = delete_entries-unmatched filters es in
    (
      (delete_entries filters es).1,
      rw (to_entries-flat filters) (ap (λ k. ok (k, flat (delete_entries filters es).1)) left),
      ap (λ (k : List StorageEntry). length (delete_entries filters es).1 + length k) (sym left)
          ∙ size,
    )
