-- ===== src/DnsStorage/Tests.antt =====
-- Runs of the DNS storage, and the theorems at concrete entries.
use opencmw_cpp.Base.{◌+◌, ◌≡◌, refl, List, [], ◌∷◌, codes, length, map, true, ok, none, bytes_eq}
use opencmw_cpp.Broker.{set}
use opencmw_cpp.DnsStorage.{
  nan, rate, rate_eq, Entry, entry_eq, any_port, filter_matches, StorageEntry, new_entry,
  invalidate, place, add_entry, add_entries, active_entries_count, load, save, flat, handle_dns,
}
use opencmw_cpp.DnsStorage.Laws.{unmatched_by, handle_dns-unregisters, load-save}

abbrev voltage : Entry
voltage = record {
  protocol = codes "http";
  hostname = codes "host";
  port = 8080;
  service_name = codes "dev";
  service_type = [];
  signal_name = codes "U";
  signal_unit = codes "V";
  signal_rate = rate 1000;
  signal_type = [];
}

-- a filter that leaves all but the service open
abbrev of_service : Entry
of_service = record {
  protocol = [];
  hostname = [];
  port = any_port;
  service_name = codes "dev";
  service_type = [];
  signal_name = [];
  signal_unit = codes "A";
  signal_rate = nan;
  signal_type = [];
}

abbrev stored : List StorageEntry
stored = new_entry 5 voltage ∷ record { entry = voltage; ttl = none } ∷ []

handle_dns-unregisters_example :
    (deleted : List Entry) × (handle_dns set true of_service
        (flat (voltage ∷ []))
        10
        (λ i. (10, 10))
        stored
      ≡ ok (unmatched_by (voltage ∷ []) stored, flat deleted))
    × (length deleted + length (unmatched_by (voltage ∷ []) stored) ≡ 2)
handle_dns-unregisters_example =
    handle_dns-unregisters of_service (voltage ∷ []) 10 (λ i. (10, 10)) stored

load-save_example :
    load 10 (save stored) [] ≡ ok (map (λ (e : StorageEntry). new_entry 10 e.entry) stored)
load-save_example = load-save 10 stored

-- A filter's unit is not looked at.
unit_is_ignored : filter_matches of_service voltage ≡ true
unfolding filter_matches rate_eq bytes_eq
unit_is_ignored = refl

-- An entry without a rate, which is what a new one has, is not equal to itself: each renewal is
-- stored beside the last.
abbrev no_rate : Entry
no_rate = record voltage { signal_rate = nan }

renewals_pile_up :
    active_entries_count 20
      (add_entries ((10, 10, no_rate) ∷ (11, 11, no_rate) ∷ (12, 12, no_rate) ∷ []) [])
    ≡ 3
unfolding active_entries_count add_entries add_entry place invalidate entry_eq rate_eq bytes_eq
renewals_pile_up = refl

-- with a rate there is one
renewals_replace :
    active_entries_count 20
      (add_entries ((10, 10, voltage) ∷ (11, 11, voltage) ∷ (12, 12, voltage) ∷ []) [])
    ≡ 1
unfolding active_entries_count add_entries add_entry place invalidate entry_eq rate_eq bytes_eq
renewals_replace = refl
