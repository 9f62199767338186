-- ===== src/Lib.antt =====
-- mod_botshield: bot mitigation for the Apache HTTP Server (src/*.c).
--
-- A request is scored by rules, checked against what is remembered of its client in shared memory,
-- held against robots.txt, and then passed, challenged or refused. The worker processes of the
-- server share one mapped segment (src/shm.c) with four hash tables: addresses that carry flags,
-- strikes by clients that were refused by a rate rule, challenges that were shown to a client, and
-- nonces that were redeemed. Beside them stand a Bloom filter of the addresses served lately, and
-- the load state that a watchdog keeps (src/load.c). A table's writer takes one mutex, and gives
-- up if it is busy; a reader takes none and relies on the version of each slot, which is odd while
-- it is written. What a client has earned travels in its cookie, which is encrypted (src/cookie.c), and
-- the rate rules count requests in shared counters (src/policy.c).
--
--   Prelude     names that all modules share, Boolean tests, lists over the native numbers
--   Shm.Slots   a slot's version, the mutex's three answers, the probe window, the scan of a writer
--               and the search of a reader, which all four tables have in common
--   Shm.Probe, Shm.Target   what a write at the end of a scan does to a reader's search
--   Shm.Hash    bs_siphash24 and the little-endian bytes that a key is made of
--   Shm.State   bs_shm_runtime with the slots of bs_flagged_ip_slot, bs_strike_slot,
--               bs_safeguard_slot and bs_nonce_slot, and the clocks
--   Shm.Flagged     bs_flagged_ip_add, bs_flagged_ip_lookup, bs_flagged_ip_clear,
--                   bs_flagged_ip_clear_range, bs_ip_in_prefix
--   Shm.Nonce       bs_embedded_nonce_consume
--   Shm.Strike      bs_strike_record_429, bs_strike_check_escalated
--   Shm.Safeguard   bs_safeguard_record_presentation, bs_safeguard_check,
--                   bs_safeguard_present_count, bs_safeguard_clear, bs_safeguard_slot_dead
--   Shm.Bloom       bs_bloom_indices, bs_bloom_rotate_if_due, bs_bloom_add, bs_bloom_seen
--   Robots.Path     bs_path_match of src/robots.c
--   Robots.Agents   bs_rb_token_matches, bs_rb_best_token_len, bs_rb_group_qualifies
--   Robots.Query    robots_query
--   Robots.Names    bs_rb_group_name_from_ua, bs_rb_rstrip
--   Robots.Parser   bs_rb_parse with bs_rb_handle_line, bs_rb_add_ua, bs_rb_add_rule,
--                   bs_rb_set_crawl_delay and bs_rb_flush_group
--   Seqlock     bs_flagged_write_slot, the store of `used` by which a clear releases a slot after it,
--               and the reader's loop of bs_flagged_ip_lookup, one access to shared memory at a time, a
--               writer and a reader interleaved
--   Load        bs_load_state_from_pct and bs_load_apply_tick of src/load.c
--   Score       bs_set_request_tier_floor, bs_get_request_tier_floor and bs_set_request_captcha of
--               src/score.c; bs_parse_flag_names in Score.Names
--   Codec       bs_to_hex and bs_from_hex of src/crypto.c; in Codec.Number bs_parse_int_bounded,
--               bs_parse_uint32_bounded and bs_parse_int64_bounded
--   Rate        bs_rate_counter_admit and bs_rate_flag_ttl of src/policy.c, the first as steps of any
--               number of workers; in Rate.Directive parse_budget_window and parse_delay of
--               src/bot_rate.c
--   Cookie      bs_challenge_canonical, bs_find_algorithm and the verify callbacks of
--               src/challenge.c, bs_strict_int_form and bs_parse_canonical_fields of src/cookie.c; in
--               Cookie.Envelope bs_gcm_encrypt and bs_gcm_decrypt of src/crypto.c,
--               bs_build_cookie_payload, bs_verify_cookie and bs_should_carry_prior_rep
--   Classifier  bs_ua_classifier_add and bs_ua_classify of src/allowlist.c
--   Address     bs_parse_client_ip and bs_mask_ipv6_prefix of src/allowlist.c
--   Triggers    bs_cookie_pred_match and bs_parse_flag_ops of src/triggers.c
--   Samples     the theorems at concrete inputs, and runs of the definitions
--
-- A table is a list of slots, and a call a function from the segment to the segment and the C
-- function's result. What a call reads from outside is an argument: the clock, in seconds and in
-- microseconds, and the mutex's answer. A pointer that may be null is an Option, an address is the
-- list of its 16 bytes, a string the list of its characters. Times are natural numbers; the 32-bit
-- stamps and counters of the strike and safeguard tables wrap around as they do in C, and so do
-- the words of SipHash. The probe windows have the lengths of the source, 10 slots for flagged
-- addresses and 8 for the others, and a reader gives a slot up after 3 spins, as in the source, so
-- that every loop here ends by its list, its window or its spins, and none needs other fuel. A
-- byte of the Bloom filter is the list of its eight bits.
--
-- The words of a rate counter wrap around at 32 bits, too, and its loop makes 32 tries; the versions of
-- the interleaved seqlock are counted without a bound, and compared by their last 32 bits. OpenSSL, the
-- base64 codec, inet_pton, strtod and the table of cookies are parameters, of which the theorems assume
-- no more than they name; strtol and strtoul are modelled as far as their callers use them.
--
-- Not modelled: memory that is weaker than sequentially consistent; concurrency in the operations of
-- the tables other than the seqlock and the rate counter, whose calls run one after the other; the
-- allocation of the segment and of the mutex; the text of log messages, of which only the throttle is
-- kept; the state file of src/shm.c; the rule walk of src/policy.c and the actions of src/triggers.c,
-- which follow; and the other parts of the module, which serve pages, call other servers, or hold
-- configuration.
pub mod Prelude
pub mod Shm
pub mod Robots
pub mod Score
pub mod Codec
pub mod Load
pub mod Cookie
pub mod Samples
pub mod Address
pub mod Classifier
pub mod Rate
pub mod Seqlock
pub mod Triggers
