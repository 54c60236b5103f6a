-- ===== src/Discovery/Fallback.antt =====
-- host-fallback.ts: trying the addresses of a daemon in turn.
use herdr_connect.Common.{
  ◌≡◌, refl, sym, Bool-cases, inl, inr, Text, Bool, true, false, not, Option, none, some, List, [],
  ◌∷◌, first,
}
use herdr_connect.Errors.{
  new_error, no_address, NetworkErrorCode, NetworkError, PinnedFetchError, network, pinned, other,
  Result, ok, throw,
}
use herdr_connect.Discovery.{exhausted, try_hosts, with_host_fallback}

module _ {A : Type 0} (request : Text → Result A) (classify : PinnedFetchError → NetworkError)
    (connection_code : NetworkErrorCode → Bool) where
  -- An answer that does not depend on the address: a result, or an error of the daemon's.
  abbrev pub is_decisive : Result A → Bool
  is_decisive (ok a) = true
  is_decisive (throw (pinned e)) = false
  is_decisive (throw (network e)) = not (connection_code e.code)
  is_decisive (throw other) = true

  -- The last failure of each kind, where a later one replaces an earlier one.
  abbrev pub last_pinned : List Text → Option PinnedFetchError → Option PinnedFetchError
  last_pinned [] last = last
  last_pinned (url ∷ urls) last =
      last_pinned urls (elim (request url) [ throw (pinned e) ↦ some e | _ ↦ last ])

  abbrev pub last_connection : List Text → Option NetworkError → Option NetworkError
  last_connection [] last = last
  last_connection (url ∷ urls) last =
      last_connection urls (elim (request url) [ throw (network e) ↦ some e | _ ↦ last ])

  abbrev pub ask : Option Text → Result A → Result A
  ask none otherwise = otherwise
  ask (some url) otherwise = request url

  -- What is thrown when no address has answered, by what was met last.
  abbrev pub verdict : Option PinnedFetchError → Option NetworkError → Result A
  verdict (some e) n = throw (network (classify e))
  verdict none (some e) = throw (network e)
  verdict none none = throw (network (record { code = no_address; status = none; detail = none }))

  exhausted-verdict :
      (p : Option PinnedFetchError) (n : Option NetworkError)
      → exhausted request classify connection_code p n ≡ verdict p n
  unfolding new_error
  exhausted-verdict (some e) n = refl
  exhausted-verdict none (some e) = refl
  exhausted-verdict none none = refl

  -- The first decisive outcome in the order of the addresses; if there is none, the last transport
  -- error, classified, or else the last connection error.
  abbrev pub answer : List Text → Option PinnedFetchError → Option NetworkError → Result A
  answer urls p n =
      ask (first (λ url. is_decisive (request url)) urls)
        (verdict (last_pinned urls p) (last_connection urls n))

  abbrev attempt : List Text → Option PinnedFetchError → Option NetworkError → Result A
  attempt = try_hosts request classify connection_code

  attempt-cons :
      (url : Text) (urls : List Text) (p : Option PinnedFetchError) (n : Option NetworkError)
      → ((q : Option PinnedFetchError) (l : Option NetworkError)
          → attempt urls q l ≡ answer urls q l)
      → (r : Result A) → request url ≡ r
      → attempt (url ∷ urls) p n ≡ answer (url ∷ urls) p n
  unfolding try_hosts
  attempt-cons url urls p n rest (ok a) e =
      rw (e, try_hosts, answer, last_pinned, last_connection) (sym e)
  attempt-cons url urls p n rest (throw (pinned q)) e =
      rw (e, try_hosts, answer, last_pinned, last_connection) (rest (some q) n)
  attempt-cons url urls p n rest (throw (network q)) e =
      elim (Bool-cases (connection_code q.code)) [
        | inl c ↦ rw (e, try_hosts, answer, last_pinned, last_connection, c) (rest p (some q))
        | inr c ↦ rw (e, try_hosts, answer, last_pinned, last_connection, c) (sym e)
      ]
  attempt-cons url urls p n rest (throw other) e =
      rw (e, try_hosts, answer, last_pinned, last_connection) (sym e)

  try_hosts_lem :
      (urls : List Text) (p : Option PinnedFetchError) (n : Option NetworkError)
      → attempt urls p n ≡ answer urls p n
  unfolding try_hosts
  try_hosts_lem [] p n = exhausted-verdict p n
  try_hosts_lem (url ∷ urls) p n = attempt-cons url urls p n (try_hosts_lem urls) (request url) refl

  -- The call gives the first decisive outcome in the order of the addresses; if there is none it
  -- throws the last transport error, classified, or else the last connection error.
  pub with_host_fallback_lem :
      (url : Text) (urls : List Text)
      → with_host_fallback request classify connection_code (url ∷ urls)
        ≡ answer (url ∷ urls) none none
  unfolding with_host_fallback
  with_host_fallback_lem url urls = try_hosts_lem (url ∷ urls) none none
