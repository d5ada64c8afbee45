-- ===== src/Topic/ParamMap.antt =====
-- `std::map<std::string, std::optional<std::string>>`, sorted by key.
pub mod Order
use opencmw_cpp.Base.{Bytes, bytes_lt, List, [], ◌∷◌, Option, if◌then◌else◌}
use opencmw_cpp.Uri.Query.{Params}

-- `insert`: an entry that is there stays as it is.
unfoldable pub insert_param : Bytes → Option Bytes → Params → Params
insert_param k v [] = (k, v) ∷ []
insert_param k v ((j, w) ∷ m) =
    let rest = insert_param k v m in
    if bytes_lt k j then (k, v) ∷ (j, w) ∷ m else if bytes_lt j k then (j, w) ∷ rest else (j, w) ∷ m

-- `m.insert(q.begin(), q.end())`
unfoldable pub insert_all : Params → Params → Params
unfolding insert_param
insert_all [] m = m
insert_all ((k, v) ∷ q) m = insert_all q (insert_param k v m)
