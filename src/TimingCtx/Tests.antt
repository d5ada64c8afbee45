-- ===== src/TimingCtx/Tests.antt =====
-- Timing selectors at concrete texts.
use opencmw_cpp.Base.{
  pos, ◌≡◌, refl, Bytes, codes, bytes_eq, starts_with, has, split, read_digits, ok, true,
}
use opencmw_cpp.TimingCtx.{
  Ids, TimingCtx, all_wildcards, int_eq, to_upper, read_int, from_chars, read_value, set_id,
  parse_tag, parse_tags, parse_selector, wildcard_match, timing_matches,
}

abbrev two_ids : Ids
two_ids = record all_wildcards { cid = pos 1; pid = pos 23 }

abbrev two_ids_text : Bytes
two_ids_text = codes "fair.selector.c=1:s=all:p=23"

two_ids_read : parse_selector two_ids_text ≡ ok two_ids
unfolding parse_selector to_upper starts_with bytes_eq split parse_tags parse_tag has read_value
    from_chars read_int read_digits set_id
two_ids_read = refl

-- a number out of range is taken for zero
out_of_range_read :
    parse_selector (codes "FAIR.SELECTOR.C=99999999999") ≡ ok (record all_wildcards { cid = pos 0 })
unfolding parse_selector to_upper starts_with bytes_eq split parse_tags parse_tag has read_value
    from_chars read_int read_digits set_id
out_of_range_read = refl

abbrev two_ctx : TimingCtx
two_ctx = record { selector = two_ids_text; ids = two_ids; bpcts = pos 0 }

abbrev any_ctx : TimingCtx
any_ctx = record { selector = codes "ALL"; ids = all_wildcards; bpcts = pos 0 }

abbrev one_ctx : TimingCtx
one_ctx = record any_ctx { ids = record all_wildcards { cid = pos 1 } }

two_matches_one : timing_matches two_ctx one_ctx ≡ true
unfolding timing_matches wildcard_match int_eq
two_matches_one = refl

one_matches_any : timing_matches one_ctx any_ctx ≡ true
unfolding timing_matches wildcard_match int_eq
one_matches_any = refl
