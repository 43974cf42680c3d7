-- ===== src/RateLimit.antt =====
-- middlware/ratelimit.go: a token bucket for each client address.
--
-- The bucket is `golang.org/x/time/rate`, a parameter: a new one, and what `Allow` answers at a time
-- and leaves. So is `net.SplitHostPort`. The mutex makes each method one step.
pub mod Alone
use host_container.Prelude.{
  ℕ, ◌-◌, ◌*◌, ◌<◌, String, Bool, true, false, Option, none, some, List, [], ◌∷◌, if◌then◌else◌,
  ltb, str_eq,
}

pub record Bucket (L : Type 0) : Type 0 where
  pub new_limiter : L
  pub allow : ℕ → L → Bool × L

pub record Visitor (L : Type 0) : Type 0 where
  pub limiter : L
  pub last_seen : ℕ

-- The keys of the map that are present.
abbrev pub Visitors : Type 0 → Type 0
Visitors L = String → Option (Visitor L)

-- The headers `X-Real-IP` and `X-Forwarded-For`, and the peer; what is not there is empty.
pub record ClientRequest : Type 0 where
  pub real_ip : String
  pub forwarded_for : String
  pub remote_addr : String

unfoldable pub client_ip : (String → Option String) → ClientRequest → String
client_ip split_host_port r =
    if str_eq r.real_ip ""
    then (if str_eq r.forwarded_for ""
        then elim (split_host_port r.remote_addr) [ none ↦ "" | some host ↦ host ]
        else elim (split_host_port r.forwarded_for) [ none ↦ r.forwarded_for | some host ↦ host ])
    else r.real_ip

module _ {L : Type 0} (bucket : Bucket L) where
  abbrev pub set_visitor : String → Visitor L → Visitors L → Visitors L
  set_visitor ip v vs x = if str_eq ip x then some v else vs x

  -- A new visitor is made for an address that is not there; the time is that of the call.
  pub get_limiter : String → ℕ → Visitors L → L × Visitors L
  get_limiter ip now vs =
      let l : L = elim (vs ip) [ none ↦ bucket.new_limiter | some v ↦ v.limiter ] in
      (l, set_visitor ip (record { limiter = l; last_seen = now }) vs)

  -- `getLimiter(ip).Allow()`; the map holds a pointer to the limiter, so the map sees it change.
  pub allow_request : String → ℕ → Visitors L → Bool × Visitors L
  allow_request ip now vs =
      let (l, vs') = get_limiter ip now vs in
      let (ok, l') = bucket.allow now l in
      (ok, set_visitor ip (record { limiter = l'; last_seen = now }) vs')

  -- One round of `cleanupLoop`, in seconds.
  unfoldable pub clean_up : ℕ → Visitors L → Visitors L
  clean_up now vs x = elim (vs x) [
    | none ↦ none
    | some v ↦ if ltb (10 * 60) (now - v.last_seen) then none else some v
  ]
