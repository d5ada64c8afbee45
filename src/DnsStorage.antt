-- ===== src/DnsStorage.antt =====
-- The DNS service of signals: services/include/services/dns_types.hpp, dns_storage.hpp and dns.hpp.
-- Times are in seconds, and each function takes the times at which the code reads the clock. The
-- file in which the storage is kept and its YaS form are not modelled: saving gives the flat list of
-- entries, and loading takes one.
pub mod Laws
pub mod Tests
use opencmw_cpp.Base.{
  ℕ, ◌+◌, ◌-◌, ◌^◌, ◌==◌, ltb, Bytes, bytes_eq, Bool, true, false, not, ◌&&◌, ◌||◌, List, [], ◌∷◌,
  ◌++◌, zero, suc, Result, ok, err, ◌>>=◌, ◌>>◌, guard, undefined, map, length, get_or, is_empty,
  Option, none, some, if◌then◌else◌,
}
use opencmw_cpp.Broker.{Command, get, set}

-- A float by its value: not a number, or which of the other values it is (the two zeros are one).
pub data Rate : Type 0 where
  nan : Rate
  rate : ℕ → Rate

-- `a == b` on floats
unfoldable pub rate_eq : Rate → Rate → Bool
rate_eq nan q = false
rate_eq (rate a) nan = false
rate_eq (rate a) (rate b) = a == b

-- `std::isnan`
abbrev pub is_nan : Rate → Bool
is_nan nan = true
is_nan (rate a) = false

-- `Entry`; the port, an int, by its 32 bits
pub record Entry : Type 0 where
  pub protocol : Bytes
  pub hostname : Bytes
  pub port : ℕ
  pub service_name : Bytes
  pub service_type : Bytes
  pub signal_name : Bytes
  pub signal_unit : Bytes
  pub signal_rate : Rate
  pub signal_type : Bytes

-- -1
abbrev pub any_port : ℕ
any_port = 2 ^ 32 - 1

-- the default `operator==` of `Entry`
unfoldable pub entry_eq : Entry → Entry → Bool
entry_eq a b =
    bytes_eq a.protocol b.protocol
    && (bytes_eq a.hostname b.hostname
        && (a.port == b.port
            && (bytes_eq a.service_name b.service_name
                && (bytes_eq a.service_type b.service_type
                    && (bytes_eq a.signal_name b.signal_name
                        && (bytes_eq a.signal_unit b.signal_unit
                            && (rate_eq a.signal_rate b.signal_rate
                                && bytes_eq a.signal_type b.signal_type)))))))

-- `check_string`
abbrev pub text_matches : Bytes → Bytes → Bool
text_matches asked text = is_empty asked || bytes_eq asked text

-- `QueryEntry::operator==`: what the filter leaves open matches everything.
unfoldable pub filter_matches : Entry → Entry → Bool
filter_matches filter entry =
    text_matches filter.protocol entry.protocol
    && (text_matches filter.hostname entry.hostname
        && (text_matches filter.service_name entry.service_name
            && (text_matches filter.service_type entry.service_type
                && (text_matches filter.signal_name entry.signal_name
                    && (text_matches filter.signal_type entry.signal_type
                        && ((filter.port == any_port || filter.port == entry.port)
                            && (is_nan filter.signal_rate
                                || rate_eq filter.signal_rate entry.signal_rate)))))))

-- `TimeToLive<Entry>`; `none` is the least time point, before every other
pub record StorageEntry : Type 0 where
  pub entry : Entry
  pub ttl : Option ℕ

-- `ttl > now`
abbrev pub is_active : ℕ → Option ℕ → Bool
is_active now none = false
is_active now (some ttl) = ltb now ttl

-- `ttl < now`
abbrev pub is_expired : ℕ → Option ℕ → Bool
is_expired now none = true
is_expired now (some ttl) = ltb ttl now

abbrev pub hour : ℕ
hour = 3600

-- an entry that is constructed at a time
abbrev pub new_entry : ℕ → Entry → StorageEntry
new_entry created entry = record { entry = entry; ttl = some (created + hour) }

-- the entries that are equal to a new one lose their time
unfoldable pub invalidate : ℕ → Entry → List StorageEntry → List StorageEntry
invalidate now entry [] = []
invalidate now entry (e ∷ es) =
    (if is_active now e.ttl && entry_eq e.entry entry then record e { ttl = none } else e)
    ∷ invalidate now entry es

-- the new entry takes the place of the first that has expired, or goes to the end
unfoldable pub place : ℕ → StorageEntry → List StorageEntry → List StorageEntry
place now fresh [] = fresh ∷ []
place now fresh (e ∷ es) =
    let rest = place now fresh es in if is_expired now e.ttl then fresh ∷ es else e ∷ rest

-- `addEntry`, with the times of its two readings of the clock
unfoldable pub add_entry : ℕ → ℕ → Entry → List StorageEntry → List StorageEntry
add_entry now created entry entries =
    place now (new_entry created entry) (invalidate now entry entries)

-- `addEntries`: the entries with the times at which they are added
unfoldable pub add_entries : List (ℕ × ℕ × Entry) → List StorageEntry → List StorageEntry
add_entries [] entries = entries
add_entries ((now, created, entry) ∷ more) entries =
    add_entries more (add_entry now created entry entries)

-- `queryEntries`
unfoldable pub query_entries : ℕ → Entry → List StorageEntry → List Entry
query_entries now filter [] = []
query_entries now filter (e ∷ es) =
    let rest = query_entries now filter es in
    if filter_matches filter e.entry && is_active now e.ttl then e.entry ∷ rest else rest

-- `deleteEntries(filter)`: what it deletes, and what stays
unfoldable pub deleted_by : Entry → List StorageEntry → List Entry
deleted_by filter [] = []
deleted_by filter (e ∷ es) =
    let rest = deleted_by filter es in
    if filter_matches filter e.entry then e.entry ∷ rest else rest

unfoldable pub kept_by : Entry → List StorageEntry → List StorageEntry
kept_by filter [] = []
kept_by filter (e ∷ es) =
    let rest = kept_by filter es in if filter_matches filter e.entry then rest else e ∷ rest

-- `deleteEntries(entries)`
unfoldable pub delete_entries : List Entry → List StorageEntry → List StorageEntry × List Entry
unfolding kept_by deleted_by
delete_entries [] entries = (entries, [])
delete_entries (filter ∷ filters) entries =
    let (left, deleted) = delete_entries filters (kept_by filter entries) in
    (left, deleted_by filter entries ++ deleted)

-- `getActiveEntriesCount`
unfoldable pub active_entries_count : ℕ → List StorageEntry → ℕ
active_entries_count now [] = 0
active_entries_count now (e ∷ es) =
    let rest = active_entries_count now es in if is_active now e.ttl then 1 + rest else rest

-- `FlatEntryList`
pub record FlatEntryList : Type 0 where
  pub protocol : List Bytes
  pub hostname : List Bytes
  pub port : List ℕ
  pub service_name : List Bytes
  pub service_type : List Bytes
  pub signal_name : List Bytes
  pub signal_unit : List Bytes
  pub signal_rate : List Rate
  pub signal_type : List Bytes

-- the constructor of `FlatEntryList`
unfoldable pub flat : List Entry → FlatEntryList
flat entries = record {
  protocol = map (λ (e : Entry). e.protocol) entries;
  hostname = map (λ (e : Entry). e.hostname) entries;
  port = map (λ (e : Entry). e.port) entries;
  service_name = map (λ (e : Entry). e.service_name) entries;
  service_type = map (λ (e : Entry). e.service_type) entries;
  signal_name = map (λ (e : Entry). e.signal_name) entries;
  signal_unit = map (λ (e : Entry). e.signal_unit) entries;
  signal_rate = map (λ (e : Entry). e.signal_rate) entries;
  signal_type = map (λ (e : Entry). e.signal_type) entries;
}

-- the assertion of `toEntries`, without which it would read behind the end of a column
unfoldable pub columns_agree : FlatEntryList → Bool
columns_agree f =
    let size = length f.protocol in
    length f.hostname == size
    && (length f.port == size
        && (length f.service_name == size
            && (length f.service_type == size
                && (length f.signal_name == size
                    && (length f.signal_unit == size
                        && (length f.signal_rate == size && length f.signal_type == size))))))

-- the entry in one row
abbrev pub row : FlatEntryList → ℕ → Entry
row f i = record {
  protocol = get_or f.protocol i [];
  hostname = get_or f.hostname i [];
  port = get_or f.port i 0;
  service_name = get_or f.service_name i [];
  service_type = get_or f.service_type i [];
  signal_name = get_or f.signal_name i [];
  signal_unit = get_or f.signal_unit i [];
  signal_rate = get_or f.signal_rate i nan;
  signal_type = get_or f.signal_type i [];
}

-- the loop of `toEntries`: `left` rows from row `i` on
unfoldable pub rows : (left i : ℕ) → FlatEntryList → List Entry
rows zero i f = []
rows (suc left) i f = row f i ∷ rows left (i + 1) f

-- `toEntries`
unfoldable pub to_entries : FlatEntryList → Result (List Entry)
to_entries f = guard (columns_agree f) undefined >> ok (rows (length f.protocol) 0 f)

-- `loadDataFromFile`, on the list that the file holds
unfoldable pub load : ℕ → FlatEntryList → List StorageEntry → Result (List StorageEntry)
load now f entries = to_entries f >>= (λ loaded. ok (entries ++ map (new_entry now) loaded))

-- `saveDataToFile`: the list that the file gets
unfoldable pub save : List StorageEntry → FlatEntryList
save entries = flat (map (λ (e : StorageEntry). e.entry) entries)

-- the entries with the times at which the clock is read for each of them
abbrev pub stamped : (ℕ → ℕ × ℕ) → ℕ → List Entry → List (ℕ × ℕ × Entry)
stamped clock i [] = []
stamped clock i (entry ∷ entries) =
    ((clock i).0, (clock i).1, entry) ∷ stamped clock (i + 1) entries

-- `DnsHandler::operator()`: the storage behind the call, and the response, which is left empty for
-- other commands
unfoldable pub handle_dns :
    Command
    → (do_delete : Bool) → (filter : Entry) → FlatEntryList
    → (now : ℕ) → (ℕ → ℕ × ℕ)
    → List StorageEntry
    → Result (List StorageEntry × FlatEntryList)
handle_dns set true filter input now clock entries = to_entries input >>= (λ filters.
    ok ((delete_entries filters entries).0, flat (delete_entries filters entries).1))
handle_dns set false filter input now clock entries =
    to_entries input >>= (λ new. ok (add_entries (stamped clock 0 new) entries, flat new))
handle_dns get do_delete filter input now clock entries =
    ok (entries, flat (query_entries now filter entries))
handle_dns c do_delete filter input now clock entries = ok (entries, flat [])
