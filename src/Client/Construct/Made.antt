-- ===== src/Client/Construct/Made.antt =====
-- `New`: when there is a client, and which options it has.
use bscp_go.Prelude.{
  ◌≡◌, inl, inr, Bool, true, false, not, ◌&&◌, ◌||◌, none, some, List, [], arith, Option-cases,
  is_none, Text,
}
use bscp_go.Options.{Options, Setter}
use bscp_go.Client.Construct.{
  Setup, New, made, no_client, failed, start_options, has_test_addr, init_file_cache, init_kv_cache,
  with_caches, connect, new_with, new,
}

abbrev pub fingerprint_of : Setup → Text
fingerprint_of st = elim st.fingerprint [ none ↦ [] | some fp ↦ fp ]

-- The options that the setters leave, from the fingerprint as fingerprint and uid on.
abbrev pub options_of : Setup → List Setter → Options
options_of st sets = start_options (fingerprint_of st) sets

-- The calls that a client needs all succeed; a cache that is not enabled needs none.
abbrev pub all_succeed : Setup → Options → Bool
all_succeed st o =
    not (is_none st.fingerprint)
    && st.meta_encoded
    && st.upstream_made
    && st.shakes_hands
    && st.payload_decoded
    && st.downloader_made
    && (not o.file_cache.enabled || st.file_cache_made)
    && (not o.kv_cache.enabled || st.kv_cache_made)
    && st.watcher_made

abbrev pub is_made : New → Bool
is_made (made c) = true
is_made no_client = false
is_made (failed e) = false

-- There is a client exactly when every call that it needs succeeds and no address begins with "test".
pub new-is_made :
    (st : Setup) (sets : List Setter)
    → is_made (new st sets)
      ≡ (all_succeed st (options_of st sets) && not (has_test_addr (options_of st sets).feed_addrs))
unfolding new new_with connect with_caches init_file_cache init_kv_cache
new-is_made st sets = elim (Option-cases st.fingerprint) [
  | inl e ↦ rw e (ground arith)
  | inr (fp, e) ↦ rw e (ground arith)
]

-- If an address begins with "test", `New` makes no client and returns no error, and it connects to
-- nothing: this holds whatever the later calls would do.
pub new-has_test_addr :
    (st : Setup) (sets : List Setter)
    → is_none st.fingerprint ≡ false
    → st.meta_encoded ≡ true
    → has_test_addr (options_of st sets).feed_addrs ≡ true
    → new st sets ≡ no_client
unfolding new new_with
new-has_test_addr st sets fp meta test = elim (Option-cases st.fingerprint) [
  | inl e ↦ absurd (cc (rw e at fp))
  | inr (f, e) ↦ rw e (ground (arith, rw e at test))
]
