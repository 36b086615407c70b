-- ===== src/Base/Examples.antt =====
-- Tests for the functions on texts and numbers.
use capi_shell_mcp.Base.{
  lit, [], ◌∷◌, split, has_substring, trim_space, itoa, negsuc, seconds, whole_seconds,
  add_duration, ◌≡◌, refl, true,
}

split_test : split b'/' (lit "a//b") ≡ lit "a" ∷ [] ∷ lit "b" ∷ []
unfolding split
split_test = refl

has_substring_test : has_substring (lit "field is immutable") (lit "immut") ≡ true
unfolding has_substring
has_substring_test = refl

trim_space_test : trim_space (lit " active\n") ≡ lit "active"
unfolding trim_space
trim_space_test = refl

itoa_test : itoa 3600 ≡ lit "3600"
unfolding itoa
itoa_test = refl

-- Ten seconds before, and a negative duration in whole seconds.
before : add_duration 25_000_000_000 (seconds (negsuc 9)) ≡ 15_000_000_000
unfolding add_duration seconds
before = refl

towards_zero : whole_seconds (negsuc 1_499_999_999) ≡ negsuc 0
unfolding whole_seconds
towards_zero = refl
