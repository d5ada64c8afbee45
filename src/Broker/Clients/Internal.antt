-- ===== src/Broker/Clients/Internal.antt =====
-- The broker's own services: the handlers that its constructor adds, and `detail::findDnsEntry`.
use opencmw_cpp.Base.{
  join, split, ℕ, ◌+◌, Bytes, codes, bytes_discrete, bytes_lt, Bool, true, false, not, ◌||◌, ◌&&◌,
  ◌==◌, List, [], ◌∷◌, ◌++◌, map, none, some, find, contains, is_empty, is_upper, has, starts_with,
  Result, ok, err, ◌>>=◌, if◌then◌else◌,
}
use opencmw_cpp.Uri.{Uri, relaxed}
use opencmw_cpp.Uri.Parse.{parse_uri}
use opencmw_cpp.Broker.{
  Broker, Message, Service, DnsServiceItem, Internal, mmi_dns, mmi_echo, mmi_service, mmi_openapi,
  final,
}
use opencmw_cpp.Broker.Dns.{strip_start}

-- `std::ranges::sort` of texts
unfoldable pub insert_sorted : Bytes → List Bytes → List Bytes
insert_sorted s [] = s ∷ []
insert_sorted s (t ∷ ts) =
    let rest = insert_sorted s ts in if bytes_lt t s then t ∷ rest else s ∷ t ∷ ts

unfoldable pub sort : List Bytes → List Bytes
unfolding insert_sorted
sort [] = []
sort (s ∷ ss) = insert_sorted s (sort ss)

-- the sort of the entries by their service names
unfoldable pub insert_item : DnsServiceItem → List DnsServiceItem → List DnsServiceItem
insert_item i [] = i ∷ []
insert_item i (j ∷ js) =
    let rest = insert_item i js in
    if bytes_lt j.service_name i.service_name then j ∷ rest else i ∷ j ∷ js

unfoldable pub sort_items : List DnsServiceItem → List DnsServiceItem
unfolding insert_item
sort_items [] = []
sort_items (i ∷ is) = insert_item i (sort_items is)

abbrev is_whitespace : ℕ → Bool
is_whitespace c = has c (32 ∷ 12 ∷ 10 ∷ 13 ∷ 9 ∷ 11 ∷ [])

unfoldable pub strip_back : (ℕ → Bool) → Bytes → Bytes
strip_back p [] = []
strip_back p (c ∷ s) = let rest = strip_back p s in if is_empty rest && p c then [] else c ∷ rest

-- `detail::trimmed`
unfoldable pub trimmed : Bytes → Bytes
unfolding strip_start strip_back
trimmed s = strip_back is_whitespace (strip_start is_whitespace s)

abbrev to_lower : ℕ → ℕ
to_lower c = if is_upper c then c + 32 else c

-- `detail::iequal`
unfoldable pub iequal : Bytes → Bytes → Bool
iequal [] [] = true
iequal [] (d ∷ t) = false
iequal (c ∷ s) [] = false
iequal (c ∷ s) (d ∷ t) = to_lower c == to_lower d && iequal s t

-- `entryMatches` of `detail::findDnsEntry`
unfoldable pub entry_matches : Bytes → Bytes → Bytes → Uri → Bool
unfolding iequal strip_start
entry_matches scheme path strip entry =
    if not (is_empty scheme) && not (iequal entry.scheme scheme)
    then false
    else starts_with (strip_start (λ c. has c strip) entry.path) path

-- A cached URI is kept as its text, which was read when it was entered.
unfoldable pub matching_uris : (Uri → Bool) → List Bytes → List Bytes
matching_uris p [] = []
matching_uris p (u ∷ us) =
    let rest = matching_uris p us in
    let hit : Bool = elim (parse_uri relaxed u) [ ok uri ↦ p uri | err e ↦ false ] in
    if hit then u ∷ rest else rest

unfoldable pub matching_entries : (Uri → Bool) → List (Bytes × DnsServiceItem) → List Bytes
unfolding matching_uris
matching_entries p [] = []
matching_entries p ((key, item) ∷ items) = matching_uris p item.uris ++ matching_entries p items

-- `detail::findDnsEntry`. A query that is not a URI throws.
unfoldable pub find_dns_entry : Bytes → List (Bytes × DnsServiceItem) → Bytes → Result Bytes
unfolding entry_matches matching_entries strip_start sort join
find_dns_entry broker_name cache s = do
  query ← parse_uri relaxed s
  let path = strip_start (λ c. c == b'/') query.path
  let strip = if starts_with path (codes "/mmi.") then b'/' ∷ broker_name else codes "/"
  let results = sort (matching_entries (entry_matches query.scheme path strip) cache)
  let shown = if is_empty results then codes "null" ∷ [] else results
  ok (b'[' ∷ s ++ codes ": " ++ join b',' shown ++ codes "]")

unfoldable pub find_dns_entries :
    Bytes → List (Bytes × DnsServiceItem) → List Bytes → Result (List Bytes)
unfolding find_dns_entry trimmed
find_dns_entries broker_name cache [] = ok []
find_dns_entries broker_name cache (s ∷ ss) = do
  entry ← find_dns_entry broker_name cache (trimmed s)
  rest ← find_dns_entries broker_name cache ss
  ok (entry ∷ rest)

-- the formatter of `DnsServiceItem`
unfoldable pub show_item : DnsServiceItem → Bytes
unfolding join sort
show_item i = b'[' ∷ i.service_name ++ codes ": " ++ join b',' (sort i.uris) ++ codes "]"

abbrev has_query : Bytes → Bool
has_query s = has b',' s || (has b':' s || has b'/' s)

abbrev items_of : List (Bytes × DnsServiceItem) → List DnsServiceItem
items_of [] = []
items_of ((key, i) ∷ is) = i ∷ items_of is

abbrev names_of : List (Bytes × Service) → List Bytes
names_of [] = []
names_of ((name, s) ∷ services) = name ∷ names_of services

-- the handler of `/mmi.dns`
unfoldable pub answer_dns : Message → Broker → Result Message
unfolding find_dns_entries show_item sort_items split join
answer_dns m b =
    let entries = map show_item (sort_items (items_of b.dns_cache)) in
    if not (has_query m.body)
    then ok (record m { command = final; body = join b',' entries })
    else (find_dns_entries b.broker_name b.dns_cache (split b',' m.body) >>= λ results.
        ok (record m { command = final; body = join b',' results }))

-- the handler of `/mmi.service`
unfoldable pub answer_service : Message → Broker → Message
unfolding sort join
answer_service m b =
    let found = if contains bytes_discrete m.body b.services then codes "200" else codes "404" in
    record m {
      command = final;
      body = if is_empty m.body then join b',' (sort (names_of b.services)) else found;
    }

-- the handler of `/mmi.openapi`
unfoldable pub answer_openapi : Message → Broker → Message
answer_openapi m b = elim (find bytes_discrete m.body b.services) [
  | some s ↦ record m { command = final; body = s.description; error = [] }
  | none ↦ record m {
    command = final;
    body = [];
    error = codes "Requested invalid service '" ++ m.body ++ codes "'";
  }
]

-- the internal handlers; `/mmi.echo` gives the message back as it is
unfoldable pub answer : Internal → Message → Broker → Result Message
unfolding answer_dns answer_service answer_openapi
answer mmi_dns m b = answer_dns m b
answer mmi_echo m b = ok m
answer mmi_service m b = ok (answer_service m b)
answer mmi_openapi m b = ok (answer_openapi m b)
