-- ===== src/Telemetry/Status.antt =====
-- Which of the statuses that one call met the call reports.
use aws_mcp_gateway.Base.{
  refl, [], ◌∷◌, List, ◌≡◌, ℕ, ◌≤◌, Bool, true, false, Option, some, if◌then◌else◌, arith, ◌∙◌, sym,
}
use aws_mcp_gateway.Telemetry.{
  CacheStatus, ExecutionCollector, has_status, first_status, status_among, resolve_cache_status,
  hit, miss, disabled, unavailable, bypass,
}

-- how much a status says of the cost of a call, the most telling first
abbrev pub rank : CacheStatus → ℕ
rank miss = 0
rank bypass = 1
rank unavailable = 2
rank hit = 3
rank disabled = 4

-- Which of five statuses a list of them has, the first by rank.
abbrev first_of : Bool → Bool → Bool → Bool → Bool → Option CacheStatus → Option CacheStatus
first_of m b u h d o =
    if m
    then some miss
    else if b
    then some bypass
    else if u
    then some unavailable
    else if h
    then some hit
    else if d
    then some disabled
    else o

abbrev flag : CacheStatus → Bool → Bool → Bool → Bool → Bool → Bool
flag miss m b u h d = m
flag bypass m b u h d = b
flag unavailable m b u h d = u
flag hit m b u h d = h
flag disabled m b u h d = d

first_of-least :
    (m b u h d : Bool) (o : Option CacheStatus) (t : CacheStatus)
    → flag t m b u h d ≡ true
    → (s : CacheStatus) × ((first_of m b u h d o ≡ some s)
        × ((flag s m b u h d ≡ true) × (rank s ≤ rank t)))
first_of-least true b u h d o t e = (miss, (refl, (refl, omega arith)))
first_of-least false true u h d o t e = (bypass, (refl, (refl, ground arith)))
first_of-least false false true h d o t e = (unavailable, (refl, (refl, ground arith)))
first_of-least false false false true d o t e = (hit, (refl, (refl, ground arith)))
first_of-least false false false false true o t e = (disabled, (refl, (refl, ground arith)))
first_of-least false false false false false o t e = ground arith

flag-has :
    (l : List CacheStatus) (t : CacheStatus)
    → flag t
        (has_status l miss)
        (has_status l bypass)
        (has_status l unavailable)
        (has_status l hit)
        (has_status l disabled)
      ≡ has_status l t
flag-has l miss = refl
flag-has l bypass = refl
flag-has l unavailable = refl
flag-has l hit = refl
flag-has l disabled = refl

among-least :
    (l : List CacheStatus) (t : CacheStatus)
    → has_status l t ≡ true
    → (s : CacheStatus) × ((status_among l ≡ some s)
        × ((has_status l s ≡ true) × (rank s ≤ rank t)))
unfolding status_among first_status has_status
among-least [] t e = cc
among-least (a ∷ as') t e =
    let (s, (first, (flagged, least))) =
      first_of-least (has_status (a ∷ as') miss) (has_status (a ∷ as') bypass)
        (has_status (a ∷ as') unavailable) (has_status (a ∷ as') hit)
        (has_status (a ∷ as') disabled) (some a) t (flag-has (a ∷ as') t ∙ e) in
    (s, (first, (sym (flag-has (a ∷ as') s) ∙ flagged, least)))

-- Where a call met a status, it reports one that it met, and none that it met comes before that one in
-- the order miss, bypass, unavailable, hit, disabled.
pub resolve_cache_status-least :
    (c : ExecutionCollector) (t : CacheStatus)
    → has_status c.cache_statuses t ≡ true
    → (s : CacheStatus) × ((resolve_cache_status c ≡ some s)
        × ((has_status c.cache_statuses s ≡ true) × (rank s ≤ rank t)))
unfolding resolve_cache_status
resolve_cache_status-least c t e = among-least c.cache_statuses t e
