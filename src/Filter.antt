-- ===== src/Filter.antt =====
-- include/sylog/logger.hpp and src/logger.cpp: the filters. `IFilter` is open: a filter of the
-- user's is its `pass`.
pub mod Prefix
use sy_log.Event.{Event}
use sy_log.Prelude.{
  ℕ, Bool, true, false, ◌++◌, List, [], ◌∷◌, Bytes, length, take, ltb, leb, bytes_eq, if◌then◌else◌,
  Option, none, some,
}
use sy_log.Severity.{Severity}

pub record SeverityFilter : Type 0 where
  pub minimum_priority : ℕ

abbrev pub at_least : Severity → SeverityFilter
at_least minimum = record { minimum_priority = minimum.priority }

abbrev pub severity_pass : SeverityFilter → Event → Bool
severity_pass f e = leb f.minimum_priority e.severity_priority

pub record EndpointFilter : Type 0 where
  pub allow_prefixes : List Bytes
  pub deny_prefixes : List Bytes

abbrev pub allow : Bytes → EndpointFilter → EndpointFilter
allow prefix f = record f { allow_prefixes = f.allow_prefixes ++ prefix ∷ [] }

abbrev pub deny : Bytes → EndpointFilter → EndpointFilter
deny prefix f = record f { deny_prefixes = f.deny_prefixes ++ prefix ∷ [] }

-- The empty prefix matches every endpoint.
unfoldable pub matches_prefix : Bytes → Bytes → Bool
matches_prefix ep [] = true
matches_prefix ep (c ∷ p) =
    let prefix = c ∷ p in
    if ltb (length ep) (length prefix) then false else bytes_eq (take (length prefix) ep) prefix

-- One of the two loops of `EndpointFilter::pass`: does some prefix of the list match?
unfoldable pub any_prefix : Bytes → List Bytes → Bool
any_prefix ep [] = false
any_prefix ep (p ∷ ps) = if matches_prefix ep p then true else any_prefix ep ps

unfoldable pub allowed : Bytes → List Bytes → Bool
unfolding any_prefix
allowed ep [] = true
allowed ep (a ∷ as_) = any_prefix ep (a ∷ as_)

unfoldable pub endpoint_pass : EndpointFilter → Event → Bool
unfolding any_prefix allowed
endpoint_pass f e =
    if any_prefix e.endpoint f.deny_prefixes then false else allowed e.endpoint f.allow_prefixes

pub data Filter : Type 0 where
  severity : SeverityFilter → Filter
  endpoint : EndpointFilter → Filter
  custom : (Event → Bool) → Filter

unfoldable pub pass : Filter → Event → Bool
unfolding endpoint_pass
pass (severity f) e = severity_pass f e
pass (endpoint f) e = endpoint_pass f e
pass (custom p) e = p e

-- `for (auto const& f : filters) if (f && !f->pass(e)) return false;`: a null pointer is skipped.
unfoldable pub all_pass : List (Option Filter) → Event → Bool
all_pass [] e = true
all_pass (none ∷ fs) e = all_pass fs e
all_pass (some f ∷ fs) e = if pass f e then all_pass fs e else false
