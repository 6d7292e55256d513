-- ===== src/Urls.antt =====
-- dashboard/frontend/src/api/client.ts and `_wsUrl` of hooks/useMetricsWS.ts: the addresses of the
-- backend, and what a reply of `fetch` comes to. An empty base is falsy.
pub mod Addresses
use lsmkv_enterprise.Common.{
  ℕ, Bool, true, false, Option, none, some, List, [], ◌∷◌, ◌++◌, Text, text, decimal, starts_with,
  ◌==◌, nat_eq, if◌then◌else◌, drop, length,
}

-- `s.replace(/^p/, by)` for a plain prefix.
unfoldable pub replace_prefix : Text → Text → Text → Text
replace_prefix p by s = if starts_with p s then by ++ drop (length p) s else s

-- The base is `API_BASE`.
unfoldable pub api_url : Text → Text → Text
api_url [] path = path
api_url (c ∷ base) path = (c ∷ base) ++ replace_prefix (text "/api") [] path

-- Where the page was loaded from.
pub record Location : Type 0 where
  pub is_https : Bool
  pub host : Text

unfoldable pub ws_url : Option Text → Location → Text
ws_url (some (c ∷ base)) at =
    replace_prefix (text "http") (text "ws") (c ∷ base) ++ text "/ws/metrics"
ws_url _ at =
    (if at.is_https then text "wss" else text "ws")
    ++ (text "://" ++ (at.host ++ text "/ws/metrics"))

-- What `fetch` comes to: an exception, a reply that is not ok with its status and the `detail` of
-- its body, if it has one, or a reply that is ok with its parsed body.
pub data Answer {ℓ} (A : Type ℓ) : Type ℓ where
  offline garbled : Answer A
  refused : ℕ → Option Text → Answer A
  answered : A → Answer A

-- What the promise of `apiFetch` comes to; an exception of `fetch` or of the parse is passed on.
pub data Fetched {ℓ} (A : Type ℓ) : Type ℓ where
  resolved : A → Fetched A
  passed_on : Fetched A
  failed_with : Text → Fetched A

unfoldable pub api_fetch {ℓ} : {A : Type ℓ} → Answer A → Fetched A
api_fetch offline = passed_on
api_fetch garbled = passed_on
api_fetch (refused status (some detail)) = failed_with detail
api_fetch (refused status none) = failed_with (text "API error " ++ decimal status)
api_fetch (answered a) = resolved a
